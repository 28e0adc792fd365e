-- ===== src/Daemon/Drivers/Audits.antt =====
-- How many destruction audits a log holds, and which steps of a Stop print none.
use drover_runner.Base.{
  Text, ◌++◌, lit, ℕ, zero, suc, Bool, true, false, Option, none, some, strip_prefix, ◌∷◌, [], ◌≡◌,
  ◌⊎◌, refl, ap, ◌∙◌, ◌+◌, ltb, if◌then◌else◌, inl, inr, arith,
}
use drover_runner.Base.Int.{ℤ}
use drover_runner.Host.{
  Host, Log, Call, M, Result, ok, err, and_then, Error, Result-cases, print, context, ask_number,
  pure, write_zeroes, now, open_write, file_size, poll_done, sync, seek_start, ◌>>=◌,
}
use drover_runner.Storage.{
  ShredRecord, DestructionAudit, lock_sign, register_audit, block, zero_loop, read_sample,
  finish_shred, after_loop, shred_open, shred_file,
}
use drover_runner.Storage.Zeroing.{IsDisk}
use drover_runner.Storage.Shredding.{Purged, shred_file-Shredded}
use drover_runner.Daemon.Drivers.{Env, audit_shred}

-- The line of RegisterAudit, up to the JSON.
abbrev audit_prefix : Text
audit_prefix = lock_sign ++ lit " [Audit-Log] DESTRUCTION AUDIT: "

abbrev is_there : Option Text → Bool
is_there none = false
is_there (some t) = true

abbrev is_audit : Call → Bool
is_audit (print t) = is_there (strip_prefix audit_prefix t)
is_audit _ = false

-- The destruction audits that were printed.
unfoldable pub audits : Log → ℕ
unfolding strip_prefix
audits [] = 0
audits (e ∷ l) = if is_audit e.call then suc (audits l) else audits l

-- The line of RegisterAudit is counted, and the line of a shredding that failed is not.
is_audit-audit :
    (payload : Text)
    → is_audit (print (lock_sign ++ (lit " [Audit-Log] DESTRUCTION AUDIT: " ++ payload))) ≡ true
unfolding strip_prefix lit
is_audit-audit payload = refl

-- The operation prints no audit.
abbrev pub Silent : {A : Type 0} → M A → Type 0
Silent m = (l : Log) → audits (m l).1 ≡ audits l

module _ {A B : Type 0} (m : M A) (k : A → M B) where
  and_then-Silent :
      (p : Result A × Log) → ((a : A) → Silent (k a)) → audits (and_then p k).1 ≡ audits p.1
  and_then-Silent (ok a, l) s = s a l
  and_then-Silent (err e, l) s = refl

  Silent-bind : Silent m → ((a : A) → Silent (k a)) → Silent (m >>= k)
  Silent-bind s t l = and_then-Silent (m l) t ∙ s l

module _ (h : Host) where
  Silent-zero_loop :
      (fuel : ℕ) (path : Text) (size written : ℕ) → Silent (zero_loop h fuel path size written)
  unfolding zero_loop audits
  Silent-zero_loop zero path size written l = refl
  Silent-zero_loop (suc fuel) path size written l =
      let polled : Log = record { call = poll_done; fault = none } ∷ l in
      let zeroes = write_zeroes path written (block size written) in
      let wrote : Log = record { call = zeroes; fault = none } ∷ polled in
      ground (arith, Silent-zero_loop fuel path size (written + h.number polled zeroes) wrote)

  Silent-read_sample : (path : Text) (n : ℕ) → Silent (read_sample h path n)
  unfolding read_sample audits
  Silent-read_sample path n l = ground arith

  module _ (sha256 : Text → Text) (path : Text) where
    Silent-finish : (started size : ℕ) → Silent (finish_shred h sha256 path started size)
    unfolding finish_shred audits
    Silent-finish started size l =
        let synced : Log = record { call = sync path; fault = none } ∷ l in
        let sought : Log = record { call = seek_start path; fault = none } ∷ synced in
        ground (arith, Silent-read_sample path (if ltb size 1024 then size else 1024) sought)

    Silent-after_loop :
        (started size : ℕ) (r : Option (Unit {0}))
        → Silent (after_loop h sha256 path started size r)
    unfolding after_loop
    Silent-after_loop started size none l = refl
    Silent-after_loop started size (some u) l =
        Silent-bind (finish_shred h sha256 path started size) (λ r. pure (some r))
          (Silent-finish started size) (λ r l. refl) l

    Silent-open : (started : ℕ) → Silent (shred_open h sha256 path started)
    unfolding shred_open audits
    Silent-open started =
        Silent-bind (context (ask_number h (file_size path)) (lit "failed to stat file for size"))
          (λ size. zero_loop h (suc size) path size 0 >>= after_loop h sha256 path started size)
          (λ l. ground arith)
          (λ size.
            Silent-bind (zero_loop h (suc size) path size 0) (after_loop h sha256 path started size)
              (Silent-zero_loop (suc size) path size 0) (Silent-after_loop started size))

    -- ShredFile prints no audit.
    pub shred_file-Silent : Silent (shred_file h sha256 path)
    unfolding shred_file audits
    shred_file-Silent l =
        let started : Log = record { call = now; fault = none } ∷ l in
        let opened : Log = record { call = open_write path; fault = none } ∷ started in
        ground (arith, Silent-open (h.number l now) opened)

  register_audit-audits :
      (marshal : DestructionAudit → Result Text) (audit : DestructionAudit) (l : Log)
      → (audits (register_audit h marshal audit l).1 ≡ audits l)
        ⊎ (audits (register_audit h marshal audit l).1 ≡ suc (audits l))
  unfolding register_audit audits
  register_audit-audits marshal audit l = elim (Result-cases (marshal audit)) [
    | inr (e, failed) ↦ rw failed (inl refl)
    | inl (payload, done) ↦ rw (done, is_audit-audit payload) (inr refl)
  ]

  module _ (env : Env) (id overlay : Text) (memory_mb : ℤ) (started : ℕ) where
    -- A shredding that failed is not audited.
    pub audit_shred-failed :
        (r : Result (Option ShredRecord)) (e : Error) (l : Log)
        → r ≡ err e
        → audits (audit_shred h env id memory_mb overlay started r l).1 ≡ audits l
    unfolding audit_shred audits strip_prefix
    audit_shred-failed r e l failed = rw failed refl

    -- At most one audit is printed.
    pub audit_shred-audits :
        (r : Result (Option ShredRecord)) (l : Log)
        → (audits (audit_shred h env id memory_mb overlay started r l).1 ≡ audits l)
          ⊎ (audits (audit_shred h env id memory_mb overlay started r l).1 ≡ suc (audits l))
    unfolding audit_shred audits strip_prefix
    audit_shred-audits (err e) l = inl refl
    audit_shred-audits (ok none) l = inl refl
    audit_shred-audits (ok (some stats)) l =
        register_audit-audits env.marshal _
          (record { call = now; fault = none } ∷ record { call = now; fault = none } ∷ l)

module _ (h : Host) (env : Env) where
  -- The audit never fails.
  pub audit_shred-ok :
      (id overlay : Text) (memory_mb : ℤ) (started : ℕ) (r : Result (Option ShredRecord)) (l : Log)
      → (audit_shred h env id memory_mb overlay started r l).0 ≡ ok tt
  unfolding audit_shred
  audit_shred-ok id overlay memory_mb started (err e) l = refl
  audit_shred-ok id overlay memory_mb started (ok none) l = refl
  audit_shred-ok id overlay memory_mb started (ok (some stats)) l = refl

module _ (h : Host) (env : Env) (path : Text) (disk : Log → Text) (d : IsDisk h path disk) where
  -- ShredFile ran on the log `k`, and the audits went from those of `l` to those of `l'`: it failed,
  -- and none was printed; or it purged the file, and at most one was.
  abbrev pub Accounted : Log → Log → Log → Type 0
  Accounted k l l' =
      ((e : Error) × ((shred_file h env.sha256 path k).0 ≡ err e) × (audits l' ≡ audits l))
      ⊎ (Purged h path disk d env.sha256 k (shred_file h env.sha256 path k)
          × ((audits l' ≡ audits l) ⊎ (audits l' ≡ suc (audits l))))

  pub audit_shred-Accounted :
      (id : Text) (memory_mb : ℤ) (started : ℕ) (k l l' : Log)
      → audits k ≡ audits l
      → (let p = shred_file h env.sha256 path k in
          audits l' ≡ audits (audit_shred h env id memory_mb path started p.0 p.1).1)
      → Accounted k l l'
  audit_shred-Accounted id memory_mb started k l l' before after =
      let p = shred_file h env.sha256 path k in
      let silent : audits p.1 ≡ audits l = shred_file-Silent h env.sha256 path k ∙ before in
      elim (shred_file-Shredded h path disk d env.sha256 k) [
        | inr (e, failed) ↦ inl (
          e,
          failed,
          after ∙ audit_shred-failed h env id path memory_mb started p.0 e p.1 failed ∙ silent,
        )
        | inl purged ↦ inr (
          purged,
          elim (audit_shred-audits h env id path memory_mb started p.0 p.1) [
            | inl same ↦ inl (after ∙ same ∙ silent)
            | inr more ↦ inr (after ∙ more ∙ ap suc silent)
          ],
        )
      ]
