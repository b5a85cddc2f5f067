-- ===== src/Markers/Tests.antt =====
-- The markers of ib_trader/engine/exec_markers.py at three fills of two orders.
use ib_trader.Prelude.{ℕ, ◌≤◌, String, true, some, List, [], ◌∷◌, ◌++◌, length, ◌≡◌, refl, arith}
use ib_trader.Prelude.Int.{ℤ, pos, ◌+ℤ◌, ◌*ℤ◌}
use ib_trader.Markers.{
  Execution, Group, by_perm, by_exec, read, merge, place, group_all, sort, drop, of_symbol,
  max_per_symbol, compute_exec_markers,
}
use ib_trader.Markers.Conserved.{total, share_all, markers_show_all}
use ib_trader.Markers.Sorted.{IsSorted, markers_are_newest}

abbrev fill : String → ℕ → ℤ → ℤ → ℤ → Execution
fill id perm time shares price = record {
  local_symbol = "MNQZ6";
  exec_id = id;
  perm_id = perm;
  side = "BOT";
  exec_time = some time;
  shares = some shares;
  price = some price;
}

abbrev executions : List Execution
executions =
    fill "e1" 7 (pos 500) (pos 2) (pos 100)
    ∷ fill "e2" 0 (pos 450) (pos 1) (pos 90)
    ∷ fill "e3" 7 (pos 400) (pos 3) (pos 101)
    ∷ []

-- The fills of order 7 are one marker at the earlier of them.
two_markers :
    compute_exec_markers (pos 1000) (pos 0) executions "MNQZ6"
    ≡ record {
      sym = "MNQZ6";
      order = by_perm 7;
      is_buy = true;
      qty = pos 5;
      notional = pos 503;
      time = pos 400;
    }
      ∷ record {
        sym = "MNQZ6";
        order = by_exec "e2";
        is_buy = true;
        qty = pos 1;
        notional = pos 90;
        time = pos 450;
      }
      ∷ []
unfolding compute_exec_markers drop sort group_all read merge place ◌+ℤ◌ ◌*ℤ◌
two_markers = refl

markers_show_all_example :
    let markers = compute_exec_markers (pos 1000) (pos 0) executions "MNQZ6" in
    let qty = λ (g : Group). g.qty in
    let notional = λ (g : Group). g.notional in
    (total qty markers ≡ share_all qty (pos 1000) (pos 0) "MNQZ6" executions)
    × (total notional markers ≡ share_all notional (pos 1000) (pos 0) "MNQZ6" executions)
unfolding group_all read merge
markers_show_all_example = markers_show_all (pos 1000) (pos 0) executions "MNQZ6" (omega arith)

markers_are_newest_example :
    let all_markers = sort (of_symbol "MNQZ6" (group_all (pos 1000) (pos 0) executions [])) [] in
    let markers = compute_exec_markers (pos 1000) (pos 0) executions "MNQZ6" in
    (length markers ≤ max_per_symbol)
    × ((old : List Group) × (all_markers ≡ old ++ markers) × IsSorted (old ++ markers))
markers_are_newest_example = markers_are_newest (pos 1000) (pos 0) executions "MNQZ6"
