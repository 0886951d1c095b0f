-- ===== src/AnalysisTool/Overwrite.antt =====
-- When the file of the analysis server holds the received logs, and nothing else.
use kubernetes_cluster_monit.AnalysisTool.{csv_record, overwrite, store, receive_logs}
use kubernetes_cluster_monit.Logger.Entry.{LogInfo}
use kubernetes_cluster_monit.Prelude.{
  ℕ, zero, suc, ◌≤◌, ◌≡◌, refl, sym, ap, ◌∙◌, subst, ◌↔◌, none, List, [], ◌∷◌, ◌++◌, map,
  append-nil, arith, length, drop, length-append, length-drop,
}
use kubernetes_cluster_monit.Prelude.Program.{Reply}
use kubernetes_cluster_monit.Prelude.Text.{Text}

drop_all : (n : ℕ) (s : Text) → length s ≤ n → drop n s ≡ []
drop_all zero [] l = refl
drop_all zero (c ∷ s) l = absurd (omega arith)
drop_all (suc n) [] l = refl
drop_all (suc n) (c ∷ s) l = drop_all n s (omega arith)

overwrite_iff :
    (written old : Text) → (overwrite written old ≡ written) ↔ (length old ≤ length written)
unfolding overwrite
overwrite_iff written old = (
  λ e. omega (
    arith,
    ap length e,
    length-append written (drop (length written) old),
    length-drop (length written) old,
  ),
  λ l. ap (λ t. written ++ t) (drop_all (length written) old l) ∙ append-nil written,
)

store_iff :
    (encode : List (List Text) → Text) (old : Text) (logs : List LogInfo)
    → ((store encode none old (record { value = logs; error = none })).file
        ≡ encode (map csv_record logs))
      ↔ (length old ≤ length (encode (map csv_record logs)))
unfolding store
store_iff encode old logs = overwrite_iff (encode (map csv_record logs)) old

-- Where the form and its JSON are read and the file opens, it holds the received logs as CSV and nothing
-- else exactly if it was not longer before: the end of a longer file stays behind them.
pub receive_logs_iff :
    (decode : Text → Reply (List LogInfo)) (encode : List (List Text) → Text) (form old : Text)
    (logs : List LogInfo)
    → decode form ≡ record { value = logs; error = none }
    → ((receive_logs decode encode (record { value = form; error = none }) none old).file
        ≡ encode (map csv_record logs))
      ↔ (length old ≤ length (encode (map csv_record logs)))
unfolding receive_logs
receive_logs_iff decode encode form old logs e =
    subst
      (λ (x : Reply (List LogInfo)).
        ((store encode none old x).file ≡ encode (map csv_record logs))
        ↔ (length old ≤ length (encode (map csv_record logs))))
      (sym e) (store_iff encode old logs)
