-- ===== src/Examples/Concurrent.antt =====
-- Requests that are served at the same time.
use drover_runner.Base.{Text, [], ◌∷◌, ◌≡◌, ◌≤◌, refl, arith, lit, decimal, some, none, ◌==◌}
use drover_runner.Base.Int.{pos}
use drover_runner.Host.{ok, perform, Event, remove}
use drover_runner.Daemon.Ids.{instance_id, next_seq}
use drover_runner.Daemon.Types.{ActiveVm, VmConfig}
use drover_runner.Daemon.Table.{load}
use drover_runner.Daemon.Server.{Server, serve_http, new_server}
use drover_runner.Daemon.Server.Concurrent.{
  System, Run, here, step, pick, reserve, launched, idle, launching, storing, stopping, update,
  initial,
}
use drover_runner.Daemon.Server.Concurrent.Invariant.{IsConsistent, Run-IsConsistent}
use drover_runner.Daemon.Server.Concurrent.Serial.{Leads, Comes, serve_http-Leads}
use drover_runner.Daemon.Server.Concurrent.Twice.{stop_twice}
use drover_runner.Examples.Hosts.{good_host}
use drover_runner.Examples.Server.{idle_driver, json, token, post, vm, one_vm}

abbrev config : VmConfig
config = record { image_name = lit "img"; memory_mb = pos 64; env = [] }

abbrev first : Text
first = instance_id (next_seq 0)

abbrev second : Text
second = instance_id (next_seq (next_seq 0))

-- Two requests have their numbers, and the guest of the second is launched.
abbrev raced : System
raced = record {
  server = record { vms = []; vm_seq = next_seq (next_seq 0) };
  log = [];
  tasks =
      update (update (update (λ _. idle) 0 (launching first config)) 1 (launching second config)) 1
        (storing second (vm second));
}

race : Run idle_driver (initial []) 3 raced
unfolding update new_server
race =
    step (step (step here (pick 0 refl (reserve config))) (pick 1 refl (reserve config)))
      (pick 1 refl (launched refl))

Run-IsConsistent_example : IsConsistent raced.server raced.tasks × (raced.server.vm_seq ≤ 3)
Run-IsConsistent_example = Run-IsConsistent idle_driver race (omega arith)

-- Nothing is served.
abbrev resting : Server → System
resting s = record { server = s; log = []; tasks = λ _. idle }

serve_http-Leads_example :
    let v = serve_http json idle_driver token post one_vm [] in
    Leads idle_driver one_vm [] v.server v.log × Comes idle_driver (resting one_vm) 3 v.server v.log
serve_http-Leads_example = serve_http-Leads idle_driver json token post (resting one_vm) 3 refl

-- A guest whose Stop removes a file.
abbrev removal : Event
removal = record { call = remove (lit "overlay"); fault = none }

abbrev stored_vm : ActiveVm
stored_vm = record (vm first) { stop = perform good_host (remove (lit "overlay")) }

abbrev serving : System
serving = resting (record { vms = (first, stored_vm) ∷ []; vm_seq = 1 })

serving-holds : load first serving.server.vms ≡ some stored_vm
unfolding load instance_id lit ◌==◌ decimal next_seq
serving-holds = refl

stop_twice_example :
    (y : System) × Run idle_driver serving 2 y
    × (y.tasks 0 ≡ stopping first stored_vm)
    × (y.tasks 1 ≡ stopping first stored_vm)
    × (z : System) × Run idle_driver y 2 z
    × (z.log ≡ removal ∷ removal ∷ [])
stop_twice_example =
    stop_twice idle_driver serving 0 1 first stored_vm (removal ∷ []) (removal ∷ removal ∷ [])
      (ok tt) (omega arith) refl refl serving-holds refl refl
