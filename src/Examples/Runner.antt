-- ===== src/Examples/Runner.antt =====
-- A client that talks to a server in the same program.
use drover_runner.Base.{
  Bool, true, false, Bool-cases, inl, inr, ltb, ltb→lt, ap, take, drop, length, Text, lit, ◌++◌, [],
  ◌∷◌, Option, none, some, ◌≡◌, refl, decimal, strip_prefix, strip_prefix_iff, nat_eq, ◌==◌, subst,
  sym, ◌∙◌, arith, if◌then◌else◌,
}
use drover_runner.Host.{Result, ok, err, message, foreign}
use drover_runner.Daemon.Ids.{instance_id, next_seq}
use drover_runner.Daemon.Types.{ActiveVm, VmInstance, VmConfig}
use drover_runner.Daemon.Table.{load, delete}
use drover_runner.Daemon.Server.{Codec, serve_http, instance_of}
use drover_runner.Runner.{
  Http, HttpRequest, HttpResponse, Adapter, get_instance, delete_instance, new_sandbox,
}
use drover_runner.Base.Int.{pos}
use drover_runner.Daemon.Server.Routing.{collection_path}
use drover_runner.Runner.Creation.{IsPosted, new_sandbox_lifecycle}
use drover_runner.Runner.Roundtrip.{
  IsWired, IsAscii, IsPlain, IsDecoded, World, response_of, path_of, get_instance-load,
  delete_instance-get_instance,
}
use drover_runner.Examples.Server.{json, token, idle_driver, one_vm, vm}

abbrev adapter : Adapter
adapter = record { base_url = lit "http://host"; auth_token = token }

-- The lengths of the first two fields, and the fields.
abbrev text_of : VmInstance → Text
text_of v = length v.id ∷ length v.state ∷ (v.id ++ (v.state ++ v.ip))

abbrev of_text : Text → Result VmInstance
of_text (n ∷ m ∷ t) =
    ok (record { id = take n t; state = take m (drop n t); ip = drop m (drop n t) })
of_text _ = err (message (lit "EOF"))

take-length-append : (s t : Text) → take (length s) (s ++ t) ≡ s
take-length-append [] t = refl
take-length-append (b ∷ s) t = ap (λ r. b ∷ r) (take-length-append s t)

drop-length-append : (s t : Text) → drop (length s) (s ++ t) ≡ t
drop-length-append [] t = refl
drop-length-append (b ∷ s) t = drop-length-append s t

of_text-text_of : (v : VmInstance) → of_text (text_of v) ≡ ok v
of_text-text_of v =
    rw (take-length-append, drop-length-append, take-length-append, drop-length-append) refl

abbrev codec : Codec
codec = record json { encode_instance = text_of }

abbrev http_answer : Option Text → HttpRequest → World → Result HttpResponse × World
http_answer none r w = (err (foreign (lit "no such host")), w)
http_answer (some path) r w =
    let v =
      serve_http codec idle_driver token
        (record { method = r.method; path = path; authorization = r.authorization; body = r.body })
        w.0 w.1 in
    (ok (response_of v), (v.server, v.log))

abbrev http : Http World
http = record {
  invalid = λ method url. none;
  send = λ r w. http_answer (strip_prefix adapter.base_url r.url) r w;
  marshal_config = λ c. ok c.image_name;
  decode_instance = of_text;
  decode_logs = λ t. ok t;
}

http-IsWired : IsWired http adapter codec idle_driver token
http-IsWired = record {
  valid = λ method n verb. refl;
  served = λ method n s l verb.
      rw ((strip_prefix_iff adapter.base_url (adapter.base_url ++ path_of n) (path_of n)).1 refl)
        refl;
}

http-IsDecoded : IsDecoded http codec
http-IsDecoded = record { instance_text = λ v plain. of_text-text_of v }

one_vm-holds : load (instance_id 1) one_vm.vms ≡ some (vm (instance_id 1))
unfolding load instance_id lit ◌==◌ decimal
one_vm-holds = refl

abbrev is_ascii : Text → Bool
is_ascii [] = true
is_ascii (b ∷ t) = if ltb b 128 then is_ascii t else false

is_ascii-IsAscii : (t : Text) → is_ascii t ≡ true → IsAscii t
is_ascii-IsAscii [] all = tt
is_ascii-IsAscii (b ∷ t) all = elim (Bool-cases (ltb b 128)) [
  | inl low ↦ (ltb→lt b 128 low, is_ascii-IsAscii t (rw low at all))
  | inr high ↦ absurd (ground (arith, high, all))
]

vm-IsPlain : IsPlain (instance_of (vm (instance_id 1)))
unfolding instance_id instance_of lit decimal
vm-IsPlain = (
  is_ascii-IsAscii (instance_id 1) refl,
  is_ascii-IsAscii (lit "running") refl,
  is_ascii-IsAscii (lit "127.0.0.1") refl,
)

abbrev IsFound : Option ActiveVm → Type 0
IsFound none = Unit
IsFound (some active) = IsPlain (instance_of active)

-- The entries of the server that is asked are ASCII.
one_vm-IsPlain :
    (active : ActiveVm)
    → load (instance_id 1) one_vm.vms ≡ some active
    → IsPlain (instance_of active)
one_vm-IsPlain active found = subst IsFound (sym one_vm-holds ∙ found) vm-IsPlain

get_instance-load_example : get_instance http adapter (instance_id 1) (one_vm, []) ≡ (
  elim (load (instance_id 1) one_vm.vms) [
    | some active ↦ ok (instance_of active)
    | none ↦ err (message (lit "unexpected status code: " ++ decimal 404))
  ],
  (one_vm, []),
)
get_instance-load_example =
    get_instance-load http adapter codec idle_driver http-IsWired 1 one_vm [] http-IsDecoded
      one_vm-IsPlain

delete_instance-get_instance_example :
    let r = delete_instance http adapter (instance_id 1) (one_vm, []) in
    (r.0 ≡ ok tt)
    × (r.1 ≡ (record one_vm { vms = delete (instance_id 1) one_vm.vms }, []))
    × ((get_instance http adapter (instance_id 2) r.1).0 ≡ (
        if nat_eq 1 2
        then err (message (lit "unexpected status code: " ++ decimal 404))
        else (get_instance http adapter (instance_id 2) (one_vm, [])).0))
delete_instance-get_instance_example =
    delete_instance-get_instance http adapter codec idle_driver http-IsWired 1 2 one_vm [] []
      (vm (instance_id 1)) one_vm-holds refl

http-IsPosted : IsPosted http (lit "http://host") codec idle_driver token
http-IsPosted = record {
  valid = refl;
  served = λ body s l.
      rw
        ((strip_prefix_iff adapter.base_url (adapter.base_url ++ collection_path) collection_path).1
          refl)
        refl;
}

abbrev config : VmConfig
config = record { image_name = lit "img"; memory_mb = pos 64; env = [] }

abbrev new_id : Text
new_id = instance_id (next_seq 0)

new_vm-IsPlain : IsPlain (instance_of (vm new_id))
unfolding instance_id instance_of lit decimal next_seq
new_vm-IsPlain = (
  is_ascii-IsAscii new_id refl,
  is_ascii-IsAscii (lit "running") refl,
  is_ascii-IsAscii (lit "127.0.0.1") refl,
)

abbrev world : World
world = (record { vms = []; vm_seq = 0 }, [])

new_sandbox_lifecycle_example :
    let sandbox = new_sandbox http (lit "http://host") token in
    let created = sandbox.create config world in
    let got = sandbox.get new_id created.1 in
    let deleted = sandbox.delete new_id got.1 in
    (created.0 ≡ ok (instance_of (vm new_id)))
    × (got.0 ≡ ok (instance_of (vm new_id)))
    × (deleted.0 ≡ ok tt)
    × ((sandbox.get new_id deleted.1).0
        ≡ err (message (lit "unexpected status code: " ++ decimal 404)))
unfolding lit
new_sandbox_lifecycle_example =
    new_sandbox_lifecycle http (lit "http://host") token codec idle_driver http-IsWired
      http-IsPosted http-IsDecoded config (lit "img") world.0 [] [] [] (vm new_id) refl refl refl
      refl new_vm-IsPlain
