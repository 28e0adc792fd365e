-- ===== src/Firecracker/Requests.antt =====
-- The PUT requests of the orchestrator: which are sent, in which order, and how they are answered.
use drover_runner.Base.{
  ap, sym, subst, ◌++◌, [], List, Text, lit, ◌≢◌, ◌≡◌, ◌⊎◌, refl, inl, inr, ◌∷◌, none, arith,
  Option-cases, ◌∙◌,
}
use drover_runner.Base.Int.{ℤ}
use drover_runner.Host.{
  fail, wrap, ◌>>◌, Host, Log, M, Result, ok, err, Error, put, and_then, on_error, or_else, context,
  Result-cases, pure,
}
use drover_runner.Firecracker.{
  Formats, Payload, str, FirecrackerOrchestrator, put_json, send_put, accept_status, configure,
  configure_network, start_vm, machine_config, boot_source, root_drive, network_config,
}

-- A computation that succeeds has done its first part with success.
pub and_then-inverse {ℓ κ} :
    {A : Type ℓ} {B : Type κ} (p : Result A × Log) (k : A → M B) (b : B)
    → (and_then p k).0 ≡ ok b
    → (a : A) × (p ≡ (ok a, p.1)) × (and_then p k ≡ k a p.1)
and_then-inverse (ok a, l) k b e = (a, refl, refl)
and_then-inverse (err x, l) k b e = absurd (cc e)

abbrev failed_after {ℓ} : {A : Type ℓ} → Error → Result (Unit {0}) × Log → Result A × Log
failed_after x p = and_then p (λ _. fail x)

failed_after-ne-ok {ℓ} :
    {A : Type ℓ} (x : Error) (p : Result (Unit {0}) × Log) (a : A) → (failed_after x p).0 ≢ ok a
failed_after-ne-ok x (ok u, l) a e = absurd (cc e)
failed_after-ne-ok x (err y, l) a e = absurd (cc e)

guarded-inverse {ℓ} :
    {A : Type ℓ} (p : Result A × Log) (cleanup : M (Unit {0})) (t : Text) (a : A)
    → (or_else p (λ e. cleanup >> fail (wrap t e))).0 ≡ ok a
    → or_else p (λ e. cleanup >> fail (wrap t e)) ≡ p
guarded-inverse (ok b, l) cleanup t a e = refl
guarded-inverse (err x, l) cleanup t a e = absurd (failed_after-ne-ok (wrap t x) (cleanup l) a e)

-- With a cleanup on errors, a computation that succeeds did nothing else.
pub on_error-inverse {ℓ} :
    {A : Type ℓ} (m : M A) (cleanup : M (Unit {0})) (t : Text) (l : Log) (a : A)
    → (on_error m cleanup t l).0 ≡ ok a
    → on_error m cleanup t l ≡ m l
on_error-inverse m cleanup t l a e = guarded-inverse (m l) cleanup t a e

module _ (h : Host) (f : Formats) (o : FirecrackerOrchestrator) where
  -- The request was sent with the JSON text of the payload, and answered with status 200 or 204;
  -- nothing else was done.
  abbrev pub Accepted : Text → Payload → Log → Log → Type 0
  Accepted path payload l l' =
      (body : Text) × (f.marshal payload ≡ ok body)
      × ((h.number l (put o.socket_path path body) ≡ 204)
          ⊎ (h.number l (put o.socket_path path body) ≡ 200))
      × (l' ≡ record { call = put o.socket_path path body; fault = none } ∷ l)

  pub put_json-Accepted :
      (path : Text) (payload : Payload) (l : Log)
      → (put_json h f o path payload l).0 ≡ ok tt
      → Accepted path payload l (put_json h f o path payload l).1
  unfolding put_json send_put accept_status
  put_json-Accepted path payload l e = elim (Result-cases (f.marshal payload)) [
    | inr (bad, failed) ↦ absurd (ground (arith, failed))
    | inl (body, text) ↦ elim (Option-cases (h.fault l (put o.socket_path path body))) [
      | inr (bad, failed) ↦ absurd (ground (arith, failed, text))
      | inl good ↦ (body, text, ground (arith, good, text, e), ground (arith, good, text, e))
    ]
  ]

  -- The requests of a list were sent one after the other and accepted; nothing else was done.
  abbrev pub Sent : List (Text × Payload) → Log → Log → Type 0
  Sent [] l l' = l' ≡ l
  Sent ((path, payload) ∷ rest) l l' = (m : Log) × Accepted path payload l m × Sent rest m l'

  -- A computation that sends these requests if it succeeds.
  abbrev pub Sends : List (Text × Payload) → M (Unit {0}) → Type 0
  Sends requests m = (l : Log) → (m l).0 ≡ ok tt → Sent requests l (m l).1

  Sent-append :
      (xs ys : List (Text × Payload)) (l m n : Log)
      → Sent xs l m
      → Sent ys m n
      → Sent (xs ++ ys) l n
  Sent-append [] ys l m n e s = subst (λ k. Sent ys k n) e s
  Sent-append ((path, payload) ∷ xs) ys l m n (k, accepted, rest) s =
      (k, accepted, Sent-append xs ys k m n rest s)

  pub Sends-put :
      (path : Text) (payload : Payload) → Sends ((path, payload) ∷ []) (put_json h f o path payload)
  Sends-put path payload l e = (_, put_json-Accepted path payload l e, refl)

  pub Sends-guarded :
      (requests : List (Text × Payload)) (m cleanup : M (Unit {0})) (t : Text)
      → Sends requests m
      → Sends requests (on_error m cleanup t)
  Sends-guarded requests m cleanup t s l e =
      let same : on_error m cleanup t l ≡ m l = on_error-inverse m cleanup t l tt e in
      subst (λ p. Sent requests l p.1) (sym same) (s l (ap (λ p. p.0) (sym same) ∙ e))

  pub Sends-then :
      (xs ys : List (Text × Payload)) (m k : M (Unit {0}))
      → Sends xs m
      → Sends ys k
      → Sends (xs ++ ys) (m >> k)
  Sends-then xs ys m k s t l e =
      let (a, done, same) = and_then-inverse (m l) (λ _. k) tt e in
      subst (λ p. Sent (xs ++ ys) l p.1) (sym same)
        (Sent-append xs ys l (m l).1 (k (m l).1).1 (s l (ap (λ p. p.0) done))
          (t (m l).1 (ap (λ p. p.0) (sym same) ∙ e)))

  pub Sends-context :
      (path : Text) (payload : Payload) (t : Text)
      → Sends ((path, payload) ∷ []) (context (put_json h f o path payload) t)
  Sends-context path payload t =
      Sends-guarded ((path, payload) ∷ []) (put_json h f o path payload) (pure tt) t
        (Sends-put path payload)

  -- The requests of Configure.
  abbrev pub configuration : Text → Text → ℤ → ℤ → List (Text × Payload)
  configuration kernel rootfs vcpus memory_mb =
      (lit "/machine-config", machine_config vcpus memory_mb)
      ∷ (lit "/boot-source", boot_source kernel)
      ∷ (lit "/drives/rootfs", root_drive rootfs)
      ∷ []

  pub configure-Sends :
      (kernel rootfs : Text) (vcpus memory_mb : ℤ)
      → Sends
          (configuration kernel rootfs vcpus memory_mb)
          (configure h f o kernel rootfs vcpus memory_mb)
  unfolding configure
  configure-Sends kernel rootfs vcpus memory_mb =
      Sends-then (_ ∷ []) (_ ∷ _ ∷ [])
        (context (put_json h f o (lit "/machine-config") (machine_config vcpus memory_mb))
          (lit "machine config failed"))
        _
        (Sends-context (lit "/machine-config") (machine_config vcpus memory_mb)
          (lit "machine config failed"))
        (Sends-then (_ ∷ []) (_ ∷ [])
          (context (put_json h f o (lit "/boot-source") (boot_source kernel))
            (lit "boot source config failed"))
          _
          (Sends-context (lit "/boot-source") (boot_source kernel)
            (lit "boot source config failed"))
          (Sends-context (lit "/drives/rootfs") (root_drive rootfs) (lit "drive config failed")))

  pub configure_network-Sends :
      (tap mac : Text)
      → Sends
          ((lit "/network-interfaces/eth0", network_config tap mac) ∷ [])
          (configure_network h f o tap mac)
  unfolding configure_network
  configure_network-Sends tap mac =
      Sends-context (lit "/network-interfaces/eth0") (network_config tap mac)
        (lit "network interface config failed")

  abbrev pub start_action : Payload
  start_action = (lit "action_type", str (lit "InstanceStart")) ∷ []

  pub start_vm-Sends : Sends ((lit "/actions", start_action) ∷ []) (start_vm h f o)
  unfolding start_vm
  start_vm-Sends = Sends-context (lit "/actions") start_action (lit "InstanceStart command failed")
