-- ===== src/Scheduler/Order.antt =====
-- In which order the tasks of requests are executed.
use fspserver.Base.{
  ℕ, ◌+◌, ◌≤◌, Text, Bool, if◌then◌else◌, List, [], ◌∷◌, ◌++◌, ◌≡◌, inl, inr, refl, sym, ap, ◌∙◌,
  subst, arith, map, count_if, count_if-append, Among,
}
use fspserver.Protocol.{Protocol, Message}
use fspserver.Handler.Tasks.{
  Priority, Task, signin, signup, push_files, delete_account, logout, download_file, add_file,
  remove_path, rename_path, handle_message, resolve_querry,
}
use fspserver.Scheduler.{
  value, Scheduler, post, post_all, stop_scheduler, item_comp, Top, Takes, takes_top, Run, idle,
  requests, takes, halts,
}

-- How urgent the handler makes each kind of task.
abbrev pub urgency : Task → ℕ
urgency (signin id login password) = 3
urgency (signup id login password) = 3
urgency (push_files id files) = 2
urgency (delete_account id) = 1
urgency logout = 4
urgency (download_file d) = 2
urgency (add_file id name) = 2
urgency (remove_path id path) = 3
urgency (rename_path id path name) = 3

abbrev Urgent : List (Priority × Task) → Type 0
Urgent [] = Unit
Urgent ((priority, task) ∷ rest) = (value priority ≡ urgency task) × Urgent rest

resolve_querry-Urgent : (p : Protocol) (m : Message) → Urgent (resolve_querry p m)
unfolding resolve_querry
resolve_querry-Urgent p m = ground arith

handle_message-Urgent :
    (p : Protocol) (m : Message) (files : List Text) → Urgent (handle_message p m files)
unfolding handle_message
handle_message-Urgent p m files = ground (arith, resolve_querry-Urgent p m)

abbrev Ranked : List (ℕ × Task) → Type 0
Ranked [] = Unit
Ranked ((n, task) ∷ rest) = (n ≡ urgency task) × Ranked rest

post_all-Ranked :
    (tasks : List (Priority × Task)) (s : Scheduler)
    → Urgent tasks
    → Ranked s.queue
    → Ranked (post_all tasks s).queue
unfolding post_all post
post_all-Ranked [] s u r = r
post_all-Ranked ((priority, task) ∷ rest) s u r =
    post_all-Ranked rest (post priority task s) u.1 (u.0, r)

Ranked-without :
    (before after : List (ℕ × Task)) (x : ℕ × Task)
    → Ranked (before ++ (x ∷ after))
    → (x.0 ≡ urgency x.1) × Ranked (before ++ after)
Ranked-without [] after x r = r
Ranked-without (y ∷ before) after x r =
    let (e, left) = Ranked-without before after x r.1 in (e, (r.0, left))

Run-Ranked :
    {p : Protocol} {s : Scheduler} {posted executed : List Task}
    → Run p s posted executed
    → Ranked s.queue
unfolding stop_scheduler
Run-Ranked idle = tt
Run-Ranked {p} (requests m files {s} before) =
    post_all-Ranked (handle_message p m files) s (handle_message-Urgent p m files)
      (Run-Ranked before)
Run-Ranked (takes run (takes_top front after n task going e top)) =
    (Ranked-without front after (n, task) (subst Ranked e (Run-Ranked run))).1
Run-Ranked (halts run) = Run-Ranked run

-- How many tasks of a list pass a test.
unfoldable pub counted_tasks : (Task → Bool) → List (ℕ × Task) → ℕ
counted_tasks test [] = 0
counted_tasks test ((n, task) ∷ rest) = (if test task then 1 else 0) + counted_tasks test rest

counted-post_all :
    (test : Task → Bool) (tasks : List (Priority × Task)) (s : Scheduler)
    → counted_tasks test (post_all tasks s).queue
      ≡ count_if test (map (λ x. x.1) tasks) + counted_tasks test s.queue
unfolding post_all post counted_tasks count_if
counted-post_all test [] s = omega arith
counted-post_all test ((priority, task) ∷ rest) s =
    ground (arith, counted-post_all test rest (post priority task s))

counted_without :
    (test : Task → Bool) (before after : List (ℕ × Task)) (n : ℕ) (task : Task)
    → counted_tasks test (before ++ ((n, task) ∷ after))
      ≡ (if test task then 1 else 0) + counted_tasks test (before ++ after)
unfolding counted_tasks
counted_without test [] after n task = refl
counted_without test ((k, other) ∷ before) after n task =
    omega (arith, counted_without test before after n task)

-- No task is lost and none is executed twice: whatever has happened, as many of the posted tasks pass
-- a test as of the executed ones and of those that still wait together.
pub Run-accounted :
    {p : Protocol} {s : Scheduler} {posted executed : List Task} (test : Task → Bool)
    → Run p s posted executed
    → count_if test posted ≡ count_if test executed + counted_tasks test s.queue
unfolding count_if counted_tasks stop_scheduler
Run-accounted test idle = refl
Run-accounted {p} test (requests m files {s} {posted} run) = omega (
  arith,
  Run-accounted test run,
  counted-post_all test (handle_message p m files) s,
  count_if-append test (map (λ x. x.1) (handle_message p m files)) posted,
)
Run-accounted test
      (takes {posted = posted} {executed = executed} run
        (takes_top before rest n task going e top)) =
    ground (
      arith,
      Run-accounted test run,
      ap (counted_tasks test) e,
      counted_without test before rest n task,
    )
Run-accounted test (halts run) = Run-accounted test run

Ranked-Among :
    (queue : List (ℕ × Task)) (k : ℕ) (task : Task)
    → Ranked queue
    → Among (k, task) queue
    → k ≡ urgency task
Ranked-Among [] k task r h = elim h [ ]
Ranked-Among ((n, other) ∷ rest) k task r (inl e) =
    ap (λ x. x.0) e ∙ r.0 ∙ sym (ap (λ x. urgency x.1) e)
Ranked-Among ((n, other) ∷ rest) k task r (inr h) = Ranked-Among rest k task r.1 h

Top-Among :
    (x : ℕ × Task) (queue : List (ℕ × Task)) (k : ℕ) (task : Task)
    → Top x queue
    → Among (k, task) queue
    → k ≤ x.0
unfolding item_comp
Top-Among x [] k task m h = elim h [ ]
Top-Among x ((j, other) ∷ rest) k task m (inl e) = ground (arith, ap (λ y. y.0) e, m.0)
Top-Among x ((j, other) ∷ rest) k task m (inr h) = Top-Among x rest k task m.1 h

Among-without :
    (before after : List (ℕ × Task)) (x y : ℕ × Task)
    → Among y (before ++ after)
    → Among y (before ++ (x ∷ after))
Among-without [] after x y h = inr h
Among-without (z ∷ before) after x y (inl e) = inl e
Among-without (z ∷ before) after x y (inr h) = inr (Among-without before after x y h)

-- The task that a thread takes is at least as urgent as every task that still waits, by the kinds of the
-- requests alone: a logout before all others, then sign-in, sign-up, removal and renaming, then pushes,
-- additions and downloads, then the deletion of an account. The order in which a client sent them does
-- not count.
pub taken-urgency :
    {p : Protocol} {s after : Scheduler} {posted executed : List Task} {task : Task} (k : ℕ)
    (other : Task)
    → Run p s posted executed
    → Takes s task after
    → Among (k, other) after.queue
    → urgency other ≤ urgency task
taken-urgency {s = s} k other run (takes_top before rest n task going e top) waits =
    let ranked = subst Ranked e (Run-Ranked run) in
    let still : Among (k, other) (before ++ ((n, task) ∷ rest)) =
      Among-without before rest (n, task) (k, other) waits in
    omega (
      arith,
      (Ranked-without before rest (n, task) ranked).0,
      Ranked-Among _ k other ranked still,
      Top-Among (n, task) _ k other (subst (Top (n, task)) e top) still,
    )
