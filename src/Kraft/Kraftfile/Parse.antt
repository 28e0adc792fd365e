-- ===== src/Kraft/Kraftfile/Parse.antt =====
-- ParseKraftfile of pkg/kraft/kraftfile.go: the search for the file, its reading, and what is done
-- to its content. The decoders of yaml.v3 and filepath.Join are parameters.
pub mod Search
use drover_runner.Base.{
  Text, ◌++◌, lit, ◌==◌, ℕ, nat_eq, if◌then◌else◌, List, [], ◌∷◌, Option, none, some,
}
use drover_runner.Host.{
  Host, Log, M, Result, ok, err, message, fail, pure, context, perform, ask_number, ask_bytes, stat,
  read_file, ◌>>=◌,
}
use drover_runner.Kraft.Kraftfile.{Target}

pub record Component : Type 0 where
  pub source : Text
  pub version : Text
  pub kconfig : List (Text × Text)

-- What yaml.Node decodes to: a string, if it does, and otherwise the object or an error.
unfoldable pub component : Option Text → Result Component → Component → Result Component
component (some s) full c = ok (record c { version = s })
component none (ok a) c = ok a
component none (err e) c = err e

-- `Raw` is the type of the maps that the decoder keeps the other keys in.
pub record Kraftfile (Raw : Type 0) : Type 0 where
  pub spec : Text
  pub specification : Text
  pub name : Text
  pub outdir : Text
  pub unikraft : Component
  pub runtime : Text
  pub template : Text
  pub targets : List Target
  pub libraries : List (Text × Component)
  pub raw : Raw

-- The names that are looked for in a directory, in this order.
abbrev pub candidates : List Text
candidates = lit "Kraftfile" ∷ lit "kraft.yaml" ∷ lit "kraft.yml" ∷ []

-- `if kf.Spec == "" { kf.Spec = kf.Specification }`
unfoldable pub normalize : {Raw : Type 0} → Kraftfile Raw → Kraftfile Raw
normalize kf = record kf { spec = if kf.spec == [] then kf.specification else kf.spec }

module _ (h : Host) (join_path : Text → Text → Text) where
  -- The loop over the candidates, with its break.
  unfoldable pub find_candidate : Text → List Text → Log → Option Text × Log
  find_candidate dir [] l = (none, l)
  find_candidate dir (c ∷ cs) l =
      let asked = perform h (stat (join_path dir c)) l in
      let later = find_candidate dir cs asked.1 in
      elim asked.0 [ ok _ ↦ (some (join_path dir c), asked.1) | err _ ↦ later ]

  -- `none` is the empty kfPath; Join with a name is never empty.
  unfoldable pub found_path : Text → Option Text × Log → Result Text × Log
  found_path dir (some path, l) = (ok path, l)
  found_path dir (none, l) =
      fail
        (message (
          lit "no Kraftfile found in "
          ++ (dir ++ lit " (looked for Kraftfile, kraft.yaml, kraft.yml)")))
        l

  -- The file to read; a directory is searched. The number that Stat answers is 1 for a directory.
  unfoldable pub kraftfile_path : Text → ℕ → M Text
  unfolding find_candidate found_path
  kraftfile_path path info l =
      if nat_eq info 1 then found_path path (find_candidate path candidates l) else pure path l

  unfoldable pub read_kraftfile :
      {Raw : Type 0} → (Text → Result (Kraftfile Raw)) → Text → M (Kraftfile Raw)
  unfolding normalize
  read_kraftfile unmarshal_yaml path = do
    content ← context (ask_bytes h (read_file path)) (lit "failed to read Kraftfile " ++ path)
    kf ← context (λ l. (unmarshal_yaml content, l)) (lit "failed to parse YAML in " ++ path)
    pure (normalize kf)

  abbrev here_if_empty : Text → Text
  here_if_empty path = if path == [] then lit "." else path

  unfoldable pub parse_kraftfile :
      {Raw : Type 0} → (Text → Result (Kraftfile Raw)) → Text → M (Kraftfile Raw)
  unfolding kraftfile_path read_kraftfile
  parse_kraftfile unmarshal_yaml given = do
    let path = here_if_empty given
    info ← context (ask_number h (stat path)) (lit "cannot access " ++ path)
    found ← kraftfile_path path info
    read_kraftfile unmarshal_yaml found
