-- ===== src/Fmgo/Burst/Check/Tests.antt =====
-- A check that runs the budget path (tools/ncm_burst.py).
use firmingo.Common.{ℕ, ◌≡◌, refl, [], ◌∷◌, ◌++◌, ok}
use firmingo.Common.Run.{◌>>=◌}
use firmingo.Python.{Fields, end, field, null, int, lookup}
use firmingo.Soak.{present_in, all_in, num, bad_types, bad_levels, went_back, project, diagnostics}
use firmingo.Uart.Rig.{Config, uart_config, World, write, connect, ask}
use firmingo.Uart.Rig.Samples.{hello_with, answering}
use firmingo.Fmgo.Burst.Check.{
  passed, BurstCheck, entries, is_expected_status, judge_counters, budget_verdict, read_diagnostics,
  together, transfer_both, run,
}
use firmingo.Fmgo.Burst.Check.Judged.{run_plan, IsJudged, run-IsJudged}

abbrev transport : ℕ → Fields → Fields
transport n rest = field "ncm_worker_runs" (int 40) (
    field "ncm_rx_frames" (int 90) (
      field "ncm_rx_deferred" (int 3) (
        field "ncm_rx_batch_peak" (int 10) (
          field "ncm_mutex_contentions" (int 0) (
            field "ncm_budget_exhaustions" (int n) (
              field "ncm_wake_requests" (int n) (
                field "tcp_accepts" (int 2) (
                  field "tcp_rx_callbacks" (int 50) (
                    field "tcp_sent_callbacks" (int 50) (
                      field "tcp_errors" (int 0) (
                        field "tcp_rx_bytes" (int 9000)
                          (field "tcp_sent_bytes" (int 8000) rest))))))))))))

abbrev reading : ℕ → ℕ → Fields
reading samples n = field "samples" (int samples) (
    field "heap_free" (int 900) (
      field "heap_min" (int 800) (
        field "stack_free" (int 70) (
          field "stack_min" (int 60) (
            field "peak_to_backend" (int 5)
              (field "peak_to_peer" (int 6) (transport n (field "lwip_free" null end))))))))

abbrev status : Fields
status = field "channel_id" (int 1) (
    field "backend_rx_bytes" (int 64) (
      field "backend_tx_bytes" (int 64)
        (field "pending_to_backend" (int 0) (field "pending_to_peer" (int 0) end))))

abbrev config : Config
config = uart_config 115200 8 "none" 1

abbrev world : World
world =
    answering [] (hello_with config 115207 ∷ hello_with config 115207 ∷ [])
      (reading 2 4 ∷ end ∷ status ∷ reading 3 6 ∷ end ∷ []) []

abbrev report : BurstCheck
report = record { initial = reading 2 4; status = status; final = reading 3 6; exercise = passed }

passes : (run 64 256 64 world).0 ≡ ok report
unfolding run budget_verdict judge_counters transfer_both together read_diagnostics
    is_expected_status entries ask connect write diagnostics present_in all_in bad_types bad_levels
    went_back project num lookup ◌>>=◌
passes = refl

run-IsJudged_example :
    ((run 64 256 64 world).1.events ≡ world.events ++ run_plan 64 256 64) × IsJudged 64 report
run-IsJudged_example = run-IsJudged 64 256 64 world passes
