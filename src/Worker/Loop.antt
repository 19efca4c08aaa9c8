-- ===== src/Worker/Loop.antt =====
-- The control loop of a worker: `adjust_rate`, `congestion_control` and the rounds of `worker_loop`
-- of server/backend/worker.cpp.
use clean_slate_inc.Prelude.{
  ℕ, ◌+◌, ◌%◌, Bool, true, false, not, ◌&&◌, Option, none, some, List, ◌==◌, if◌then◌else◌, ◌>>=◌,
  add64, sub32, ltb,
}
use clean_slate_inc.Op.{Op}
use clean_slate_inc.Packet.{Mbuf}
use clean_slate_inc.LoadBalancer.{SubOp}
use clean_slate_inc.QueuePair.{Spsc, QueuePair, front_req, pop_req, push_resp}
use clean_slate_inc.Congestion.{Double, cc_reaction_time, adjust_cc}
use clean_slate_inc.Window.{update, window_len}
use clean_slate_inc.Worker.Defs.{Link, Worker}
use clean_slate_inc.Worker.Receive.{rx_process}
use clean_slate_inc.Worker.Send.{tx_process}

-- ECN_MASK and CONGESTION_OCCUR are both the two low bits.
unfoldable pub ecn_marked : ℕ → Bool
ecn_marked tos = tos % 4 == 3

module _ {Q L : Type 0} (d : Double) where
  unfoldable pub adjust_rate : Bool → Worker Q L d.F → Worker Q L d.F
  adjust_rate congestion w =
      let v = w.window in
      let s = w.stats in
      let counted =
        if congestion
        then record s { cwnd_dec_cnt = add64 s.cwnd_dec_cnt 1 }
        else if w.cwnd_achieved
        then record s { cwnd_inc_cnt = add64 s.cwnd_inc_cnt 1 }
        else s in
      record w {
        window = record v { cc = adjust_cc d congestion w.cwnd_achieved v.cc };
        stats = counted;
        cwnd_achieved = false;
      }

  -- What `congestion_control` does last, on the paths that reach it.
  unfoldable pub note_window : Worker Q L d.F → Worker Q L d.F
  note_window w =
      let s = w.stats in
      let len = window_len w.window in
      record w {
        stats =
            if w.traffic_todo
            then record s { win_cnt = update s.win_cnt len (s.win_cnt len + 1) }
            else s;
        prev_ack_cnt_cc = w.ack_cnt;
      }

  unfoldable pub congestion_control : Worker Q L d.F → Worker Q L d.F
  congestion_control w =
      let cc = w.window.cc in
      if ltb (sub32 w.global_ts cc.prev_decrease_ts) cc_reaction_time
      then w
      else if w.ack_cnt == w.prev_ack_cnt_cc
      then w
      else if not (ecn_marked w.tos_monitor) && not w.pkt_loss_flag
      then (if ltb (sub32 w.global_ts cc.prev_adjust_ts) cc_reaction_time
          then w
          else (let w' = adjust_rate false w in
              let v = w'.window in
              note_window (record w' {
                window = record v { cc = record v.cc { prev_adjust_ts = w.global_ts } };
              })))
      else (let w' = adjust_rate true w in
          let v = w'.window in
          note_window (record w' {
            window = record v {
              cc = record v.cc { prev_decrease_ts = w.global_ts; prev_adjust_ts = w.global_ts };
            };
            tos_monitor = 0;
            pkt_loss_flag = false;
          }))

-- A round of `worker_loop`, at time `now`, with the packets that arrive in it. The log is left out.
module _ (q : Spsc SubOp) (l : Link) (d : Double) where
  unfoldable pub worker_round :
      (ℕ → Op)
      → ℕ
      → List (Option Mbuf)
      → Worker q.Queue l.State d.F
      → Option (Worker q.Queue l.State d.F)
  worker_round ops now arrived w = do
    w' ← rx_process q l ops arrived (record w { global_ts = now })
    w'' ← tx_process q l d ops w'
    some (congestion_control d w'')

-- The test loop of NETCCL_WORKER_LOOPBACK: one round.
unfoldable pub loopback_round : (q : Spsc SubOp) → QueuePair q.Queue → Option (QueuePair q.Queue)
loopback_round q qp = elim (front_req q qp) [
  | none ↦ some qp
  | some sub_op ↦ do qp' ← pop_req q qp; (_, qp'') ← push_resp q sub_op qp'; some qp''
]
