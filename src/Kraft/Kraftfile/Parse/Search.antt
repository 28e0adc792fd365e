-- ===== src/Kraft/Kraftfile/Parse/Search.antt =====
-- Which file ParseKraftfile reads.
use drover_runner.Base.{
  Text, ◌++◌, List, [], ◌∷◌, Option, none, some, Option-cases, ◌≡◌, ◌⊎◌, refl, ap, sym, subst, inl,
  inr, arith,
}
use drover_runner.Host.{Host, Log, Error, stat}
use drover_runner.Kraft.Kraftfile.Parse.{find_candidate}

module _ (h : Host) (join_path : Text → Text → Text) (dir : Text) where
  -- All of the names were looked for, in order, and none was there.
  abbrev pub Missed : List Text → Log → Log → Type 0
  Missed [] l l' = l' ≡ l
  Missed (c ∷ cs) l l' =
      (e : Error) × (h.fault l (stat (join_path dir c)) ≡ some e)
      × Missed cs (record { call = stat (join_path dir c); fault = some e } ∷ l) l'

  -- The first of the names that is there, and what was asked for it.
  abbrev pub FoundFirst : List Text → Log → Option Text × Log → Type 0
  FoundFirst cs l r =
      ((before : List Text) × (c : Text) × (after : List Text) × (missed : Log) × (cs
          ≡ before ++ c ∷ after)
        × Missed before l missed
        × (h.fault missed (stat (join_path dir c)) ≡ none)
        × (r ≡ (
          some (join_path dir c),
          record { call = stat (join_path dir c); fault = none } ∷ missed,
        )))
      ⊎ ((r.0 ≡ none) × Missed cs l r.1)

  abbrev asked : Text → Option Error → Log → Log
  asked c e l = record { call = stat (join_path dir c); fault = e } ∷ l

  find_candidate-there :
      (c : Text) (cs : List Text) (l : Log)
      → h.fault l (stat (join_path dir c)) ≡ none
      → find_candidate h join_path dir (c ∷ cs) l ≡ (some (join_path dir c), asked c none l)
  unfolding find_candidate
  find_candidate-there c cs l there = ground (arith, there)

  find_candidate-gone :
      (c : Text) (cs : List Text) (l : Log) (e : Error)
      → h.fault l (stat (join_path dir c)) ≡ some e
      → find_candidate h join_path dir (c ∷ cs) l
        ≡ find_candidate h join_path dir cs (asked c (some e) l)
  unfolding find_candidate
  find_candidate-gone c cs l e gone = ground (arith, gone)

  FoundFirst-later :
      (c : Text) (cs : List Text) (l : Log) (e : Error) (r : Option Text × Log)
      → h.fault l (stat (join_path dir c)) ≡ some e
      → FoundFirst cs (asked c (some e) l) r
      → FoundFirst (c ∷ cs) l r
  FoundFirst-later c cs l e r gone (inl (before, d, after, missed, split, m, there, q)) =
      inl (c ∷ before, d, after, missed, ap (λ t. c ∷ t) split, (e, gone, m), there, q)
  FoundFirst-later c cs l e r gone (inr (nothing, m)) = inr (nothing, (e, gone, m))

  -- The search takes the first of the names that is there, having looked for the earlier ones and
  -- no other, and finds nothing only if none of them is there.
  pub find_candidate-FoundFirst :
      (cs : List Text) (l : Log) → FoundFirst cs l (find_candidate h join_path dir cs l)
  find_candidate-FoundFirst [] l = inr (unfold find_candidate in (refl, refl))
  find_candidate-FoundFirst (c ∷ cs) l = elim (Option-cases (h.fault l (stat (join_path dir c)))) [
    | inl there ↦ inl ([], c, cs, l, refl, refl, there, find_candidate-there c cs l there)
    | inr (e, gone) ↦ FoundFirst-later c cs l e _ gone (
        subst (FoundFirst cs (asked c (some e) l)) (sym (find_candidate-gone c cs l e gone))
          (find_candidate-FoundFirst cs (asked c (some e) l)))
  ]
