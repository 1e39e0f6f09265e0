-- ===== src/Filter/Evm/Block/Logs.antt =====
-- The grouping of a block's logs (src/services/filter/filters/evm/filter.rs).
use openzeppelin_monitor.Prelude.{
  ◌≡◌, refl, sym, ◌∙◌, ap, Bool, true, false, List, [], ◌∷◌, ◌++◌, Option, some, String, str_eq,
  filter, inl, inr, Bool-cases, if◌then◌else◌, eq_iff,
}
use mathlib.Core.List.{append-nil, append_assoc}
use openzeppelin_monitor.Prelude.Dict.{lookup, insert, lookup-insert}
use openzeppelin_monitor.Models.Block.{unwrap_or}
use openzeppelin_monitor.Models.Evm.{Log}
use openzeppelin_monitor.Filter.Evm.Matching.{log_key, group_logs}

abbrev pub logs_of : String → List Log → List Log
logs_of k logs = filter (λ log. str_eq (log_key log) k) logs

abbrev entry : String → List (String × List Log) → List Log
entry k m = unwrap_or [] (lookup k m)

unwrap-if :
    (b : Bool) (v : List Log) (o : Option (List Log))
    → unwrap_or [] (if b then some v else o) ≡ (if b then v else unwrap_or [] o)
unwrap-if true v o = refl
unwrap-if false v o = refl

-- The key's own entry grows by the log, and the other entries stay.
append-if :
    (k j : String) (m : String → List Log) (log : Log) (rest : List Log)
    → (if str_eq j k then m j ++ log ∷ [] else m k) ++ rest
      ≡ m k ++ (if str_eq j k then log ∷ rest else rest)
append-if k j m log rest = elim (Bool-cases (str_eq j k)) [
  | inl e ↦
      rw (e) (append_assoc (m j) (log ∷ []) rest ∙ ap (λ i. m i ++ log ∷ rest) ((eq_iff j k).0 e))
  | inr e ↦ rw (e) refl
]

entry-insert :
    (k j : String) (v : List Log) (m : List (String × List Log))
    → entry j (insert k v m) ≡ (if str_eq k j then v else entry j m)
entry-insert k j v m =
    ap (λ o. unwrap_or [] o) (lookup-insert k j v m) ∙ unwrap-if (str_eq k j) v (lookup j m)

entry-group_logs :
    (k : String) (logs : List Log) (m : List (String × List Log))
    → entry k (group_logs logs m) ≡ entry k m ++ logs_of k logs
unfolding group_logs
entry-group_logs k [] m = sym (append-nil (entry k m))
entry-group_logs k (log ∷ logs) m =
    entry-group_logs k logs (insert (log_key log) (entry (log_key log) m ++ log ∷ []) m)
    ∙ ap (λ l. l ++ logs_of k logs)
        (entry-insert (log_key log) k (entry (log_key log) m ++ log ∷ []) m)
    ∙ append-if k (log_key log) (λ i. entry i m) log (logs_of k logs)

-- What is looked up under a hash after the grouping are the logs of the block with that hash, all of
-- them and in their order.
pub lookup-group_logs :
    (k : String) (logs : List Log) → unwrap_or [] (lookup k (group_logs logs [])) ≡ logs_of k logs
lookup-group_logs k logs = entry-group_logs k logs []
