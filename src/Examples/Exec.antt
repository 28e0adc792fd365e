-- ===== src/Examples/Exec.antt =====
-- kraft commands on a host that has no kraft, and a Kraftfile that is searched for.
use mathlib.Core.Option.{map}
use drover_runner.Base.{Text, lit, ◌++◌, [], ◌∷◌, Bool, true, false, some, ◌≡◌, Option, ◌==◌}
use drover_runner.Base.Int.{ℤ, pos}
use drover_runner.Host.{Host, Call, Error, run_in, stat}
use drover_runner.Kraft.{new_kraft}
use drover_runner.Kraft.Exec.{run_capture, run_kraft}
use drover_runner.Kraft.Exec.Capture.{Reports, program, run_capture-run_kraft, with_output}
use drover_runner.Kraft.Kraftfile.Parse.{find_candidate, candidates}
use drover_runner.Kraft.Kraftfile.Parse.Search.{FoundFirst, find_candidate-FoundFirst}
use drover_runner.Examples.Hosts.{host_with}

abbrev is_command : Call → Bool
is_command (run_in dir args) = true
is_command _ = false

-- What the command writes before it fails.
abbrev answer : Call → Text
answer (run_in dir args) = lit "no such target"
answer _ = []

abbrev failing : Host
failing = record (host_with is_command) { bytes = λ l c. answer c }

abbrev code_two : Error → Option ℤ
code_two e = some (pos 2)

run_capture-run_kraft_example :
    Reports failing code_two new_kraft
      (lit "app")
      (lit "build" ∷ [])
      (failing.fault [] (run_in (lit "app") (program new_kraft ∷ lit "build" ∷ [])))
      (run_kraft failing code_two new_kraft (lit "app") (lit "build" ∷ []) []).0
    × (run_capture failing code_two new_kraft (lit "app") (lit "build" ∷ []) [] ≡ (
      (
        failing.bytes [] (run_in (lit "app") (program new_kraft ∷ lit "build" ∷ [])),
        map
            (with_output
              (failing.bytes [] (run_in (lit "app") (program new_kraft ∷ lit "build" ∷ []))))
            (run_kraft failing code_two new_kraft (lit "app") (lit "build" ∷ []) []).0,
      ),
      (run_kraft failing code_two new_kraft (lit "app") (lit "build" ∷ []) []).1,
    ))
run_capture-run_kraft_example =
    run_capture-run_kraft failing code_two new_kraft (lit "app") (lit "build" ∷ []) []

abbrev is_missing : Call → Bool
is_missing (stat path) = path == lit "app/Kraftfile"
is_missing _ = false

-- A directory without a Kraftfile, where other names are there.
abbrev old_project : Host
old_project = host_with is_missing

abbrev join_path : Text → Text → Text
join_path dir name = dir ++ (lit "/" ++ name)

find_candidate-FoundFirst_example :
    FoundFirst old_project join_path
      (lit "app")
      candidates
      []
      (find_candidate old_project join_path (lit "app") candidates [])
find_candidate-FoundFirst_example =
    find_candidate-FoundFirst old_project join_path (lit "app") candidates []
