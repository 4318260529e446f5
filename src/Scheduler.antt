-- ===== src/Scheduler.antt =====
-- The scheduler of the requests' tasks: priority_scheduler.h and the `post` of request_scheduler.h. A
-- thread's wait is its next step; which of the items of the greatest priority `std::priority_queue`
-- gives first is left open.
pub mod Order
pub mod Table
use fspserver.Base.{ℕ, ltb, Text, map, ◌≤◌, Bool, true, false, List, [], ◌∷◌, ◌++◌, ◌≡◌}
use fspserver.Protocol.{Protocol, Message}
use fspserver.Handler.Tasks.{handle_message, Priority, very_low, low, medium, high, very_high, Task}

-- The values of scheduler_priorities.h.
abbrev pub value : Priority → ℕ
value very_low = 0
value low = 1
value medium = 2
value high = 3
value very_high = 4

pub record Scheduler : Type 0 where
  pub queue : List (ℕ × Task)
  pub stopped : Bool

-- request_scheduler::post, by the executor of the priority.
unfoldable pub post : Priority → Task → Scheduler → Scheduler
post priority task s = record s { queue = (value priority, task) ∷ s.queue }

-- priority_scheduler::stop
unfoldable pub stop_scheduler : Scheduler → Scheduler
stop_scheduler s = record s { stopped = true }

-- item_comp: whether the first item comes after the second.
unfoldable pub item_comp : ℕ × Task → ℕ × Task → Bool
item_comp a b = ltb a.0 b.0

-- What std::priority_queue promises of `top`: the item is before no other by the comparator.
abbrev pub Top : ℕ × Task → List (ℕ × Task) → Type 0
Top x [] = Unit
Top x (y ∷ rest) = (item_comp x y ≡ false) × Top x rest

-- One round of `run`: a thread takes the top of the queue, unless the scheduler has stopped.
pub data Takes (s : Scheduler) : Task → Scheduler → Type 0 where
  takes_top :
      (before after : List (ℕ × Task)) (n : ℕ) (task : Task)
      → s.stopped ≡ false
      → s.queue ≡ before ++ ((n, task) ∷ after)
      → Top (n, task) s.queue
      → Takes s task (record s { queue = before ++ after })

unfoldable pub post_all : List (Priority × Task) → Scheduler → Scheduler
unfolding post
post_all [] s = s
post_all ((priority, task) ∷ rest) s = post_all rest (post priority task s)

abbrev pub no_tasks : Scheduler
no_tasks = record { queue = []; stopped = false }

-- What the scheduler has come to, with the tasks that were posted and those that were executed: a
-- request is handled, a thread of `run` takes the top of the queue, or the scheduler stops.
pub data Run (p : Protocol) : Scheduler → List Task → List Task → Type 0 where
  idle : Run p no_tasks [] []
  requests :
      (m : Message) (files : List Text) {s : Scheduler} {posted executed : List Task}
      → Run p s posted executed
      → Run p
          (post_all (handle_message p m files) s)
          (map (λ x. x.1) (handle_message p m files) ++ posted)
          executed
  takes :
      {s after : Scheduler} {task : Task} {posted executed : List Task}
      → Run p s posted executed
      → Takes s task after
      → Run p after posted (task ∷ executed)
  halts :
      {s : Scheduler} {posted executed : List Task}
      → Run p s posted executed
      → Run p (stop_scheduler s) posted executed
