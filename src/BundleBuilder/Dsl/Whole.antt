-- ===== src/BundleBuilder/Dsl/Whole.antt =====
-- constraints_dsl.py: `parse_constraint`, from the text to the typed tree.
use charm_integration_testin.Prelude.{ℕ, ◌≡◌, ◌⊎◌, List, ok, raise}
use charm_integration_testin.BundleBuilder.Dsl.Syntax.{syntax_error, type_error, Expr}
use charm_integration_testin.BundleBuilder.Dsl.Token.{tokenize}
use charm_integration_testin.BundleBuilder.Dsl.Token.Total.{tokenize-ends}
use charm_integration_testin.BundleBuilder.Dsl.Errors.{Ensures->>=, Ensures-cases}
use charm_integration_testin.BundleBuilder.Dsl.Parser.{parse}
use charm_integration_testin.BundleBuilder.Dsl.Parser.Works.{IsEnded}
use charm_integration_testin.BundleBuilder.Dsl.Parser.Total.{parse-ends}
use charm_integration_testin.BundleBuilder.Dsl.Types.{parse_constraint}
use charm_integration_testin.BundleBuilder.Dsl.Types.Rules.{IsTyped}
use charm_integration_testin.BundleBuilder.Dsl.Types.Checked.{check_types-ends}

-- Whatever the text is, the call returns a well-typed tree, or it raises a DSLSyntaxError or a
-- DSLTypeError. It ends, and it reads no token behind the last one.
pub parse_constraint-IsTyped :
    (text : List ℕ)
    → ((e : Expr) × ((parse_constraint text ≡ ok e) × IsTyped e))
      ⊎ ((parse_constraint text ≡ raise syntax_error) ⊎ (parse_constraint text ≡ raise type_error))
unfolding parse_constraint
parse_constraint-IsTyped text = Ensures-cases IsTyped (parse_constraint text) (
    Ensures->>= IsEnded IsTyped (tokenize text) _ (tokenize-ends text) (λ ts end.
      Ensures->>= (λ e. Unit) IsTyped (parse ts) _ (parse-ends ts end)
        (λ tree u. check_types-ends tree)))
