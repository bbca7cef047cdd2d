-- ===== src/Gaspi/Guarantees/Notifications.antt =====
-- Notifications and passive messages: when they arrive, and which of them a call may have waited
-- for.
use rmarace_bench.Base.{
  ℕ, ◌+◌, String, Bool, not, ◌&&◌, ◌==◌, Option, none, some, List, map, ltb, leb, str_eq, select,
}
use rmarace_bench.Race.Access.{Point}
use rmarace_bench.Race.Execution.{Edge}
use rmarace_bench.Trace.{Trace, picked, before, after, turn}
use rmarace_bench.Gaspi.Call.{Call}
use rmarace_bench.Gaspi.Guarantees.Calls.{Notification, notifies}

-- A notification that a process posts at a step.
pub record Post : Type 0 where
  pub rank : ℕ
  pub step : ℕ
  pub what : Notification

unfoldable pub posts_of : ℕ → Trace Call → List Post
unfolding picked notifies
posts_of r t = map (λ x. record { rank = r; step = x.0; what = x.1 }) (picked (notifies r) t)

-- its arrival
abbrev pub arrival : Post → Point
arrival p = turn p.rank p.step 0

unfoldable pub arrives : Post → Edge
arrives p = record { earlier = before p.rank p.step; later = arrival p }

-- A passive message.
pub record Message : Type 0 where
  pub rank : ℕ
  pub step : ℕ
  pub to : ℕ

sends : Call → Option ℕ
sends (Call.passive_send _ r _) = some r
sends _ = none

unfoldable pub messages_of : ℕ → Trace Call → List Message
unfolding picked sends
messages_of r t = map (λ x. record { rank = r; step = x.0; to = x.1 }) (picked sends t)

-- What a call waits for: a notification on one of `num` numbers, or a message.
pub data Awaited : Type 0 where
  notification : (segment : String) (first num : ℕ) → Awaited
  message : Awaited

awaits : Call → Option Awaited
awaits (Call.notify_waitsome s i n) = some (Awaited.notification s i n)
awaits (Call.passive_receive _ _) = some Awaited.message
awaits _ = none

-- The notification lets the call of process `r` at step `k` return. A later call of the same
-- process cannot; an earlier notification can serve again, as none of the tests resets one.
serves : ℕ → ℕ → String → ℕ → ℕ → Post → Bool
serves r k s i n p =
    (p.what.to == r && str_eq p.what.segment s)
    && (leb i p.what.id && ltb p.what.id (i + n))
    && not (p.rank == r && ltb k p.step)

-- The moments of which one has to come before the return.
moments : List Post → List Message → ℕ → ℕ → Awaited → List Point
unfolding serves
moments ps ms r k (Awaited.notification s i n) = map arrival (select (serves r k s i n) ps)
moments ps ms r k Awaited.message = map (λ m. before m.rank m.step) (select (λ m. m.to == r) ms)

-- For each call of process `r` that waits, the edges of which one holds.
unfoldable pub waits_of : List Post → List Message → ℕ → Trace Call → List (List Edge)
unfolding picked awaits moments
waits_of ps ms r t =
    map (λ x. map (λ q. record { earlier = q; later = after r x.0 }) (moments ps ms r x.0 x.1))
      (picked awaits t)
