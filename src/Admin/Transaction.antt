-- ===== src/Admin/Transaction.antt =====
-- The transactions of internal/admin/handler.go.
use painkiller.Prelude.{⊤, some}
use painkiller.Outside.{Outside}
use painkiller.Store.{World, Result, ok, err, exec}
use painkiller.Http.{Reply, Handler, internal_error, could_not_write}

-- `defer tx.Rollback()` undoes what the transaction wrote.
abbrev pub or_roll_back :
    {A : Type 0} → World → Result ⊤ × World → (⊤ → Handler A) → Reply A × World
or_roll_back before (ok a, w) rest = rest a w
or_roll_back before (err e, w) rest =
    (internal_error could_not_write, record before { calls = w.calls })

-- `Beginx` and `Commit`, which can fail like every call.
abbrev pub begin_or_commit : Outside → World → Result ⊤ × World
begin_or_commit o = exec o (λ w. some w)
