-- ===== src/Namespace.antt =====
-- crates/cloacina-workflow/src/namespace.rs: `TaskNamespace`, `from_string`, `parse_namespace` and
-- the `Display` format. Texts are byte lists; the separator "::" is ASCII, so splitting by bytes
-- and by characters agree.
pub mod RoundTrip
use cloacina.Common.{
  ℕ, ◌≡◌, ◌↔◌, Bool, true, false, ◌&&◌, List, [], ◌∷◌, ◌++◌, Text, codes, Eq, ◌==◌, text_eq, Result,
  ok, err, arith, refl, nat_beq, text_eq,
}

pub record TaskNamespace : Type 0 where
  pub tenant_id : Text
  pub package_name : Text
  pub workflow_id : Text
  pub task_id : Text

-- The derived `PartialEq`.
unfoldable pub namespace_beq : TaskNamespace → TaskNamespace → Bool
namespace_beq a b =
    a.tenant_id == b.tenant_id
    && a.package_name == b.package_name
    && a.workflow_id == b.workflow_id
    && a.task_id == b.task_id

pub namespace_beq_iff : (a b : TaskNamespace) → (namespace_beq a b ≡ true) ↔ (a ≡ b)
unfolding namespace_beq
namespace_beq_iff a b = ground (
  arith,
  text_eq.decides a.tenant_id b.tenant_id,
  text_eq.decides a.package_name b.package_name,
  text_eq.decides a.workflow_id b.workflow_id,
  text_eq.decides a.task_id b.task_id,
)

instance abbrev pub namespace_eq : Eq TaskNamespace
namespace_eq = record { test = namespace_beq; decides = namespace_beq_iff }

abbrev pub new : Text → Text → Text → Text → TaskNamespace
new tenant_id package_name workflow_id task_id = record {
  tenant_id = tenant_id;
  package_name = package_name;
  workflow_id = workflow_id;
  task_id = task_id;
}

abbrev pub is_colon : ℕ → Bool
is_colon c = nat_beq c b':'

-- The first byte of a text belongs to the first part.
abbrev pub cons_head : ℕ → List Text → List Text
cons_head c [] = (c ∷ []) ∷ []
cons_head c (p ∷ ps) = (c ∷ p) ∷ ps

-- `str::split("::")`: matches are found from the left and do not overlap.
unfoldable pub split_colons : Text → List Text
split_colons [] = [] ∷ []
split_colons (c ∷ []) = (c ∷ []) ∷ []
split_colons (c ∷ d ∷ s) = elim (is_colon c && is_colon d) [
  | true ↦ [] ∷ split_colons s
  | false ↦ cons_head c (split_colons (d ∷ s))
]

-- `Display`
unfoldable pub to_string : TaskNamespace → Text
to_string ns =
    ns.tenant_id
    ++ b':' ∷ b':' ∷ (ns.package_name ++ b':' ∷ b':' ∷ (ns.workflow_id ++ b':' ∷ b':' ∷ ns.task_id))

abbrev of_parts : Text → List Text → Result Text TaskNamespace
of_parts namespace_str (a ∷ b ∷ c ∷ d ∷ []) = ok (new a b c d)
of_parts namespace_str _ = err namespace_str

-- The error carries the text that was refused: the message only wraps it.
unfoldable pub parse_namespace : Text → Result Text TaskNamespace
parse_namespace namespace_str = of_parts namespace_str (split_colons namespace_str)

unfoldable pub from_string : Text → Result Text TaskNamespace
unfolding parse_namespace
from_string namespace_str = parse_namespace namespace_str

unfoldable pub is_public : TaskNamespace → Bool
is_public ns = ns.tenant_id == codes "public"

unfoldable pub is_embedded : TaskNamespace → Bool
is_embedded ns = ns.package_name == codes "embedded"
