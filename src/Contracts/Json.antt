-- ===== src/Contracts/Json.antt =====
-- JSON objects as Python's dicts: `get`, the assignment of an item, and the truth of a value.
use portable_batch_execution.Base.{
  String, Bool, true, false, not, ◌||◌, ◌==◌, eq_iff, truthy, Option, none, some, if◌then◌else◌,
  ◌≡◌, refl, arith,
}
use portable_batch_execution.Base.Int.{pos, eq_ℤ}
use portable_batch_execution.Contracts.Job.{
  Param, Fields, null, text, float, int, bool, array, dict, opaque, no_more, item, field,
  closed_brace,
}
use portable_batch_execution.Lifecycle.References.{lookup_field}

-- `bool(value)`
unfoldable pub truthy_param : Param → Bool
truthy_param null = false
truthy_param (text s) = truthy s
truthy_param (float s) = not (s == "0.0" || s == "-0.0")
truthy_param (int n) = not (eq_ℤ n (pos 0))
truthy_param (bool b) = b
truthy_param (array no_more) = false
truthy_param (array (item p ps)) = true
truthy_param (dict closed_brace) = false
truthy_param (dict (field k p fs)) = true
truthy_param opaque = true

-- `node.get(key, otherwise)`
abbrev pub or_else : Option Param → Param → Param
or_else none otherwise = otherwise
or_else (some p) otherwise = p

-- `node[key] = value`: an item that is there keeps its place.
pub set_field : Fields → String → Param → Fields
set_field closed_brace key p = field key p closed_brace
set_field (field k q fs) key p =
    let rest = set_field fs key p in if k == key then field k p fs else field k q rest

pub lookup_field-set_field :
    (fs : Fields) (key sought : String) (p : Param)
    → lookup_field (set_field fs key p) sought
      ≡ (if key == sought then some p else lookup_field fs sought)
unfolding lookup_field set_field
lookup_field-set_field closed_brace key sought p = refl
lookup_field-set_field (field k q fs) key sought p = ground (
  arith,
  lookup_field-set_field fs key sought p,
  eq_iff k key,
  eq_iff k sought,
  eq_iff key sought,
)
