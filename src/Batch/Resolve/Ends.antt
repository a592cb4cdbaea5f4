-- ===== src/Batch/Resolve/Ends.antt =====
-- internal/extensions/batch/batch.go: `Resolve` on every text.
use haystak_tds_spi.Base.{List, [], ◌∷◌, ◌++◌, Bytes}
use haystak_tds_spi.Base.Result.{Result, ok, err, panic, no_fuel, Returns, Returns-bind}
use haystak_tds_spi.Base.Result.{Result, ok, err, panic, no_fuel, Returns, Returns-bind}
use haystak_tds_spi.Batch.Rounds.{rounds}
use haystak_tds_spi.Batch.Cut.{cut_statements}
use haystak_tds_spi.Batch.Cut.Ends.{cut_statements-Returns}
use haystak_tds_spi.Batch.Resolve.{split_round, cut_all, split_statements}

cut_all-Returns : (ss : List Bytes) → Returns (cut_all ss)
unfolding cut_all
cut_all-Returns [] = tt
cut_all-Returns (s ∷ ss) = Returns-bind (cut_statements s) _ (cut_statements-Returns s) λ cuts e.
    Returns-bind (cut_all ss) (λ more. ok (cuts ++ more)) (cut_all-Returns ss) λ more e'. tt

-- `Split` ends on every text.
pub split_statements-Returns : (sql : Bytes) → Returns (split_statements sql)
unfolding split_statements
split_statements-Returns sql = cut_all-Returns (rounds split_round (λ front. front ∷ []) sql [])
