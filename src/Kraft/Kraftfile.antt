-- ===== src/Kraft/Kraftfile.antt =====
-- pkg/kraft/kraftfile.go: the targets of a Kraftfile. What yaml.Node decodes an item of the list to
-- is a parameter: a string, a mapping, or anything else.
pub mod Targets
pub mod Parse
use drover_runner.Base.{
  Text, ◌++◌, lit, ◌==◌, ℕ, nat_eq, List, [], ◌∷◌, Bool, true, false, ◌&&◌, ◌||◌, not,
  if◌then◌else◌, Option, none, some,
}

-- A kconfig is a map; the entries that are strings are listed in some order.
pub record Target : Type 0 where
  pub name : Text
  pub plat : Text
  pub arch : Text
  pub kconfig : List (Text × Text)

-- A mapping answers a key with its value, if this is there and a string. Of the kconfig, if this
-- is a mapping, the entries are given with the values that are strings.
pub data Item : Type 0 where
  short : Text → Item
  object : (Text → Option Text) → List (Text × Option Text) → Item
  unknown : Item

-- strings.SplitN(v, "/", 2), where it has two parts.
unfoldable pub split_target : Text → Option (Text × Text)
split_target [] = none
split_target (b ∷ v) =
    let rest = split_target v in
    if nat_eq b b'/' then some ([], v) else elim rest [ none ↦ none | some p ↦ some (b ∷ p.0, p.1) ]

abbrev empty_target : Target
empty_target = record { name = []; plat = []; arch = []; kconfig = [] }

-- The short form: "qemu/x86_64", or a name.
unfoldable pub short_target : Text → Target
unfolding split_target
short_target v = elim (split_target v) [
  | some p ↦ record empty_target { plat = p.0; arch = p.1 }
  | none ↦ record empty_target { name = v }
]

-- `if v, ok := ...; ok { t.X = v }`, and the same `&& t.X == ""`, on a field.
unfoldable pub assign : Option Text → Text → Text
assign none t = t
assign (some v) t = v

unfoldable pub assign_missing : Option Text → Text → Text
assign_missing none t = t
assign_missing (some v) t = if t == [] then v else t

unfoldable pub string_entries : List (Text × Option Text) → List (Text × Text)
string_entries [] = []
string_entries ((k, none) ∷ m) = string_entries m
string_entries ((k, some v) ∷ m) = (k, v) ∷ string_entries m

unfoldable pub target_of : Item → Target
unfolding short_target assign assign_missing string_entries
target_of (short v) = short_target v
target_of (object at kconfig) = record {
  name = assign (at (lit "name")) [];
  plat = assign_missing (at (lit "platform")) (assign (at (lit "plat")) []);
  arch = assign_missing (at (lit "architecture")) (assign (at (lit "arch")) []);
  kconfig = string_entries kconfig;
}
target_of unknown = empty_target

-- t.Plat != "" || t.Arch != "" || t.Name != ""
unfoldable pub is_kept : Target → Bool
is_kept t = not (t.plat == []) || not (t.arch == []) || not (t.name == [])

-- The targets that UnmarshalYAML appends.
unfoldable pub unmarshal : List Item → List Target
unfolding target_of is_kept
unmarshal [] = []
unmarshal (item ∷ items) =
    let rest = unmarshal items in if is_kept (target_of item) then target_of item ∷ rest else rest

-- Target.String
unfoldable pub target_string : Target → Text
target_string t =
    if not (t.name == []) && (t.plat == [] || t.arch == [])
    then t.name
    else if not (t.plat == []) && not (t.arch == [])
    then t.plat ++ b'/' ∷ t.arch
    else if not (t.plat == [])
    then t.plat
    else t.name

unfoldable pub list_target_strings : List Target → List Text
unfolding target_string
list_target_strings [] = []
list_target_strings (t ∷ ts) = target_string t ∷ list_target_strings ts

unfoldable pub is_listed : Text → List Text → Bool
is_listed target [] = false
is_listed target (t ∷ ts) = t == target || is_listed target ts

unfoldable pub has_target : List Target → Text → Bool
unfolding list_target_strings is_listed
has_target targets target = is_listed target (list_target_strings targets)
