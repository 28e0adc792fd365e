-- ===== src/Daemon/Server/Routing.antt =====
-- Which paths reach which handler.
use drover_runner.Base.{
  Text, ◌++◌, lit, ◌==◌, eq_iff, strip_prefix, strip_prefix_iff, split, join, split_of_Lacks,
  split-append_sep, join-split, split-Lacks, Lacks, All, List, [], ◌∷◌, false, if◌then◌else◌, none,
  some, ◌≡◌, ◌≢◌, ◌⊎◌, refl, sym, ap, ◌∙◌, arith, Bool-cases, Option-cases, inl, inr,
}
use drover_runner.Host.{Log}
use drover_runner.Daemon.Types.{HypervisorDriver}
use drover_runner.Daemon.Writer.{Writer}
use drover_runner.Daemon.Server.{
  Codec, Request, Server, route, serve_instance, serve_logs, serve_parts, bare,
  handle_create_instance,
}

-- The paths of the API.
abbrev pub collection_path : Text
collection_path = lit "/v1/instances"

abbrev pub instance_path : Text → Text
instance_path id = lit "/v1/instances/" ++ id

abbrev pub logs_path : Text → Text
logs_path id = lit "/v1/instances/" ++ (id ++ b'/' ∷ lit "logs")

-- One segment of a path.
abbrev pub IsSegment : Text → Type 0
IsSegment id = (id ≢ []) × Lacks b'/' id

below-ne-collection : (rest : Text) → (instance_path rest == collection_path) ≡ false
unfolding lit ◌==◌
below-ne-collection rest = refl

strip_below : (rest : Text) → strip_prefix (lit "/v1/instances/") (instance_path rest) ≡ some rest
strip_below rest = (strip_prefix_iff (lit "/v1/instances/") (instance_path rest) rest).1 refl

logs-Lacks : Lacks b'/' (lit "logs")
unfolding lit
logs-Lacks = omega arith

-- The parts of a path below the collection that name an instance, or its log.
abbrev IsInstance : List Text → Type 0
IsInstance parts = (id : Text) × (id ≢ []) × (parts ≡ id ∷ [])

abbrev IsLogs : List Text → Type 0
IsLogs parts = (id : Text) × (id ≢ []) × (parts ≡ id ∷ lit "logs" ∷ [])

-- A path below the collection determines what stands below it.
instance_path_injective :
    (rest id path : Text) → path ≡ instance_path rest → path ≡ instance_path id → rest ≡ id
unfolding lit
instance_path_injective rest id path e f =
    let same : instance_path rest ≡ instance_path id = sym e ∙ f in cc same

distinct_of_test : (path : Text) → (path == collection_path) ≡ false → path ≢ collection_path
distinct_of_test path other same = absurd (cc (other, (eq_iff path collection_path).1 same))

-- No instance and no log has a path that starts otherwise, or whose parts are others.
abbrev IsElsewhere : Text → Type 0
IsElsewhere path =
    (¬ ((id : Text) × IsSegment id × (path ≡ instance_path id)))
    × (¬ ((id : Text) × IsSegment id × (path ≡ logs_path id)))

IsElsewhere-of_prefix :
    (path : Text) → strip_prefix (lit "/v1/instances/") path ≡ none → IsElsewhere path
IsElsewhere-of_prefix path apart = (
  λ (id, segment, e). absurd (cc (apart, e, strip_below id)),
  λ (id, segment, e). absurd (cc (apart, e, strip_below (id ++ b'/' ∷ lit "logs"))),
)

IsElsewhere-of_parts :
    (path rest : Text)
    → path ≡ instance_path rest
    → ¬ IsInstance (split b'/' rest)
    → ¬ IsLogs (split b'/' rest)
    → IsElsewhere path
IsElsewhere-of_parts path rest below no_instance no_logs = (
  λ (id, (full, lacks), e). no_instance (
    id,
    full,
    ap (split b'/') (instance_path_injective rest id path below e) ∙ split_of_Lacks b'/' id lacks,
  ),
  λ (id, (full, lacks), e). no_logs (
    id,
    full,
    ap (split b'/') (instance_path_injective rest (id ++ b'/' ∷ lit "logs") path below e)
        ∙ split-append_sep b'/' id (lit "logs") lacks
        ∙ ap (λ p. id ∷ p) (split_of_Lacks b'/' (lit "logs") logs-Lacks),
  ),
)

module _ (json : Codec) (driver : HypervisorDriver) (s : Server) (w : Writer) (l : Log) where
  route-below :
      (r : Request) (rest : Text)
      → r.path ≡ instance_path rest
      → route json driver r s w l ≡ serve_parts json driver (split b'/' rest) r.method s w l
  unfolding route
  route-below r rest e = rw (e, below-ne-collection rest, strip_below rest)

  -- A path of one segment below the collection is served as that instance.
  pub route-instance :
      (r : Request) (id : Text)
      → IsSegment id
      → r.path ≡ instance_path id
      → route json driver r s w l ≡ serve_instance json driver id r.method s w l
  route-instance r id (full, lacks) e =
      route-below r id e
      ∙ rw (split_of_Lacks b'/' id lacks) (unfold serve_parts in ground (arith, eq_iff id []))

  -- A segment followed by `logs` is served as the log of that instance.
  pub route-logs :
      (r : Request) (id : Text)
      → IsSegment id
      → r.path ≡ logs_path id
      → route json driver r s w l ≡ serve_logs json driver id r.method s w l
  route-logs r id (full, lacks) e =
      route-below r (id ++ b'/' ∷ lit "logs") e
      ∙ rw
          (split-append_sep b'/' id (lit "logs") lacks, split_of_Lacks b'/' (lit "logs") logs-Lacks)
          (unfold serve_parts in ground (arith, eq_iff id [], eq_iff (lit "logs") (lit "logs")))

  parts-cases :
      (parts : List Text) (method rest : Text)
      → join b'/' parts ≡ rest
      → All (Lacks b'/') parts
      → (IsSegment rest ⊎ ((id : Text) × IsSegment id × (rest ≡ id ++ b'/' ∷ lit "logs")))
        ⊎ ((¬ IsInstance parts)
            × (¬ IsLogs parts)
            × (serve_parts json driver parts method s w l ≡ bare json driver 404 s w l))
  unfolding serve_parts join
  parts-cases [] method rest e h =
      inr (λ (id, n, f). absurd (cc f), λ (id, n, f). absurd (cc f), refl)
  parts-cases (id ∷ []) method rest e h = elim (Bool-cases (id == [])) [
    | inl empty ↦
        inr (λ (j, n, f). n (cc (f, (eq_iff id []).0 empty)), λ (j, n, f). absurd (cc f), rw empty)
    | inr full ↦ inl (inl (rw (← e) (ground (arith, eq_iff id []), h.0)))
  ]
  parts-cases (id ∷ part ∷ []) method rest e h = elim (Bool-cases (id == [])) [
    | inl empty ↦
        inr (λ (j, n, f). absurd (cc f), λ (j, n, f). n (cc (f, (eq_iff id []).0 empty)), rw empty)
    | inr full ↦ elim (Bool-cases (part == lit "logs")) [
      | inl logs ↦ inl (
          inr (
            id,
            (ground (arith, eq_iff id []), h.0),
            sym e ∙ ap (λ p. id ++ b'/' ∷ p) ((eq_iff part (lit "logs")).0 logs),
          ))
      | inr other ↦ inr (
        λ (j, n, f). absurd (cc f),
        λ (j, n, f). absurd (ground (arith, other, eq_iff part (lit "logs"), f)),
        rw (full, other),
      )
    ]
  ]
  parts-cases (id ∷ part ∷ p ∷ ps) method rest e h =
      inr (λ (j, n, f). absurd (cc f), λ (j, n, f). absurd (cc f), refl)

  -- The handler that serves a request, by its path, and 404 for every other path.
  abbrev pub Routed : Request → Type 0
  Routed r =
      ((r.path ≡ collection_path)
        × (route json driver r s w l ≡ (
            if r.method == lit "POST"
            then handle_create_instance json driver r s w l
            else bare json driver 405 s w l)))
      ⊎ ((id : Text) × IsSegment id
          × (r.path ≡ instance_path id)
          × (route json driver r s w l ≡ serve_instance json driver id r.method s w l))
      ⊎ ((id : Text) × IsSegment id
          × (r.path ≡ logs_path id)
          × (route json driver r s w l ≡ serve_logs json driver id r.method s w l))
      ⊎ ((r.path ≢ collection_path)
          × IsElsewhere r.path
          × (route json driver r s w l ≡ bare json driver 404 s w l))

  route-of_parts :
      (r : Request) (rest : Text)
      → r.path ≢ collection_path
      → r.path ≡ instance_path rest
      → (IsSegment rest ⊎ ((id : Text) × IsSegment id × (rest ≡ id ++ b'/' ∷ lit "logs")))
        ⊎ ((¬ IsInstance (split b'/' rest))
            × (¬ IsLogs (split b'/' rest))
            × (serve_parts json driver (split b'/' rest) r.method s w l
                ≡ bare json driver 404 s w l))
      → Routed r
  route-of_parts r rest other e (inl (inl segment)) =
      inr (inl (rest, segment, e, route-instance r rest segment e))
  route-of_parts r rest other e (inl (inr (id, segment, f))) =
      let path : r.path ≡ logs_path id = e ∙ ap instance_path f in
      inr (inr (inl (id, segment, path, route-logs r id segment path)))
  route-of_parts r rest other e (inr (no_instance, no_logs, missing)) = inr (
      inr (
        inr (
          other,
          IsElsewhere-of_parts r.path rest e no_instance no_logs,
          route-below r rest e ∙ missing,
        )))

  -- Every request is served by its path: the collection by POST, a path of one segment below it
  -- as that instance, such a segment followed by `logs` as its log; all else, and nothing of these, is
  -- answered by 404.
  pub route-Routed : (r : Request) → Routed r
  unfolding route
  route-Routed r = elim (Bool-cases (r.path == collection_path)) [
    | inl same ↦ inl ((eq_iff r.path collection_path).0 same, rw same)
    | inr other ↦ elim (Option-cases (strip_prefix (lit "/v1/instances/") r.path)) [
      | inl apart ↦ inr (
          inr (
            inr (
              distinct_of_test r.path other,
              IsElsewhere-of_prefix r.path apart,
              rw (other, apart),
            )))
      | inr (rest, below) ↦
          route-of_parts r rest (distinct_of_test r.path other)
            ((strip_prefix_iff (lit "/v1/instances/") r.path rest).0 below)
            (parts-cases (split b'/' rest) r.method rest (join-split b'/' rest)
              (split-Lacks b'/' rest))
    ]
  ]
