-- ===== src/Daemon/Server/Shutdown.antt =====
-- StopAll: every instance of the table is stopped, and the table is empty.
use drover_runner.Base.{
  Text, ◌==◌, eq_iff, List, [], ◌∷◌, ◌≡◌, ◌⊎◌, refl, sym, ap, inl, inr, Bool-cases,
}
use drover_runner.Host.{Log}
use drover_runner.Daemon.Types.{ActiveVm}
use drover_runner.Daemon.Table.{delete, AllKeys}
use drover_runner.Daemon.Server.{Server, stop_each, stop_all}

-- The key of some entry.
abbrev Occurs : Text → List (Text × ActiveVm) → Type 0
Occurs k [] = ⊥
Occurs k ((j, a) ∷ m) = (j ≡ k) ⊎ Occurs k m

-- The calls of Stop, one for each entry in order, whatever their results.
abbrev pub stops : List (Text × ActiveVm) → Log → Log
stops [] l = l
stops ((id, a) ∷ m) l = stops m (a.stop l).1

AllKeys-Occurs_weaken :
    (j : Text) (a : ActiveVm) (rest m : List (Text × ActiveVm))
    → AllKeys (λ k. Occurs k rest) m
    → AllKeys (λ k. Occurs k ((j, a) ∷ rest)) m
AllKeys-Occurs_weaken j a rest [] h = tt
AllKeys-Occurs_weaken j a rest ((k, b) ∷ m) (p, h) = (inr p, AllKeys-Occurs_weaken j a rest m h)

AllKeys-Occurs_self : (m : List (Text × ActiveVm)) → AllKeys (λ k. Occurs k m) m
AllKeys-Occurs_self [] = tt
AllKeys-Occurs_self ((k, a) ∷ m) = (inl refl, AllKeys-Occurs_weaken k a m m (AllKeys-Occurs_self m))

AllKeys-Occurs-delete :
    (j : Text) (a : ActiveVm) (rest m : List (Text × ActiveVm))
    → AllKeys (λ k. Occurs k ((j, a) ∷ rest)) m
    → AllKeys (λ k. Occurs k rest) (delete j m)
unfolding delete
AllKeys-Occurs-delete j a rest [] h = tt
AllKeys-Occurs-delete j a rest ((k, b) ∷ m) (inl same, h) =
    rw ((eq_iff k j).1 (sym same)) (AllKeys-Occurs-delete j a rest m h)
AllKeys-Occurs-delete j a rest ((k, b) ∷ m) (inr later, h) = elim (Bool-cases (k == j)) [
  | inl same ↦ rw same (AllKeys-Occurs-delete j a rest m h)
  | inr other ↦ rw other (later, AllKeys-Occurs-delete j a rest m h)
]

nil_of_Occurs : (m : List (Text × ActiveVm)) → AllKeys (λ k. Occurs k []) m → m ≡ []
nil_of_Occurs [] h = refl
nil_of_Occurs ((k, a) ∷ m) (p, h) = absurd p

stop_each_lem :
    (rest : List (Text × ActiveVm)) (s : Server) (l : Log)
    → AllKeys (λ k. Occurs k rest) s.vms
    → stop_each rest s l ≡ (record s { vms = [] }, stops rest l)
unfolding stop_each
stop_each_lem [] s l h = ap (λ m. (record s { vms = m }, l)) (nil_of_Occurs s.vms h)
stop_each_lem ((id, a) ∷ rest) s l h =
    stop_each_lem rest (record s { vms = delete id s.vms }) (a.stop l).1
      (AllKeys-Occurs-delete id a rest s.vms h)

-- StopAll calls Stop once for each entry of the table, in order and whatever the earlier calls
-- returned, and leaves the table empty and the counter as it was.
pub stop_all_lem : (s : Server) (l : Log) → stop_all s l ≡ (record s { vms = [] }, stops s.vms l)
unfolding stop_all
stop_all_lem s l = stop_each_lem s.vms s l (AllKeys-Occurs_self s.vms)
