-- ===== src/Scheduler/Registry/Views.antt =====
-- manager.ts and drivers/memory.ts: what an operation does at an id.
use extra.Prelude.{
  suc, ◌+◌, List, [], ◌∷◌, ◌++◌, ℕ, ◌≡◌, refl, Bool, true, false, inl, inr, ◌⊎◌, Option, none, some,
  ◌==◌, if◌then◌else◌, Bool-cases, lookup, lookup-insert, arith,
}
use extra.Scheduler.Task.{ScheduledTaskDefinition}
use extra.Scheduler.Driver.{schedule}
use extra.Scheduler.Registry.{
  Continuation, to_resume, to_pause, to_remove, SchedulerRegistry, SchedulerError,
  ScheduledTaskOptions, ScheduleInput, invalid_duration, define, add_interval, add_cron, add,
  or_cron, Answer,
}
use extra.Scheduler.Driver.Bindings.{bound, schedule-bound}

-- How many calls of `remove` for an id wait for the driver.
unfoldable pub removals : ℕ → List Continuation → ℕ
removals id [] = 0
removals id (to_remove i h ∷ cs) = let rest = removals id cs in if i == id then suc rest else rest
removals id (c ∷ cs) = removals id cs

pub removals-append :
    (id : ℕ) (cs ds : List Continuation) → removals id (cs ++ ds) ≡ removals id cs + removals id ds
unfolding removals
removals-append id [] ds = ground arith
removals-append id (to_resume h ∷ cs) ds = removals-append id cs ds
removals-append id (to_pause h ∷ cs) ds = removals-append id cs ds
removals-append id (to_remove i h ∷ cs) ds = ground (arith, removals-append id cs ds)

-- The handles that the registry and the driver have for an id, and the removals of it that wait.
abbrev pub View : Type 0
View = Option ℕ × ((Option ℕ × Option ℕ) × ℕ)

abbrev pub view : ℕ → SchedulerRegistry → View
view id r = (lookup id r.tasks, (bound id r.driver, removals id r.waiting))

-- What an operation does at an id: nothing; a task in all three maps, or in none, for one that is not
-- listed; the two halves of a removal.
pub data Moves : View → View → Type 0 where
  stays : {v : View} → Moves v v
  sets : {b : Option ℕ × Option ℕ} {n : ℕ} (o : Option ℕ) → Moves (none, (b, n)) (o, ((o, o), n))
  begins : {h : ℕ} {b : Option ℕ × Option ℕ} → Moves (some h, (b, 0)) (some h, ((none, none), 1))
  ends : {o : Option ℕ} {b : Option ℕ × Option ℕ} {n : ℕ} → Moves (o, (b, suc n)) (none, (b, n))

pub Moves-by : {v v' w w' : View} → v ≡ w → v' ≡ w' → Moves w w' → Moves v v'
Moves-by p q m = rw (p, q) m

pub stays_at : {v v' : View} → v' ≡ v → Moves v v'
stays_at p = rw p stays

pub Moves-if :
    (c : Bool) (o : Option ℕ) {a a' : Option ℕ} {b b' : Option ℕ × Option ℕ} {n : ℕ}
    → (c ≡ true → a ≡ none)
    → a' ≡ (if c then o else a)
    → b' ≡ (if c then (o, o) else b)
    → Moves (a, (b, n)) (a', (b', n))
Moves-if true o f p q = rw (f refl, p, q) (sets o)
Moves-if false o f p q = rw (p, q) stays

pub absent_at :
    (id i : ℕ) (r : SchedulerRegistry)
    → lookup i r.tasks ≡ none
    → (i == id) ≡ true
    → lookup id r.tasks ≡ none
absent_at id i r e same = ground (arith, e, same)

module _ (accepts : ScheduledTaskDefinition → Bool) where
  define-Moves :
      (id now : ℕ) (def : ScheduledTaskDefinition) (r : SchedulerRegistry)
      → Moves (view id r) (view id (define accepts now def r).0)
  unfolding define
  define-Moves id now def r = go (lookup def.id r.tasks) refl
    where
      go :
          (o : Option ℕ)
          → lookup def.id r.tasks ≡ o
          → Moves (view id r) (view id (define accepts now def r).0)
      go (some h) e = rw (e, define) stays
      go none e = elim (Bool-cases (accepts def)) [
        | inr refused ↦ rw (e, refused, define) stays
        | inl taken ↦
            let h = (schedule now def r.driver).1 in
            rw (e, taken, define)
              (Moves-if (def.id == id) (some h) (absent_at id def.id r e)
                (lookup-insert id def.id h r.tasks) (schedule-bound now id def r.driver))
      ]

  pub add_interval-Moves :
      (id now i : ℕ) (every : Option ℕ) (o : ScheduledTaskOptions) (r : SchedulerRegistry)
      → Moves (view id r) (view id (add_interval accepts now i every o r).0)
  unfolding add_interval
  add_interval-Moves id now i none o r = stays
  add_interval-Moves id now i (some ms) o r = elim (Bool-cases (ms == 0)) [
    | inl zero_ms ↦ rw (zero_ms, add_interval) stays
    | inr positive ↦ rw (positive, add_interval) (define-Moves id now _ r)
  ]

  pub add_cron-Moves :
      (id now i : ℕ) (expression : Option ℕ) (o : ScheduledTaskOptions) (r : SchedulerRegistry)
      → Moves (view id r) (view id (add_cron accepts now i expression o r).0)
  unfolding add_cron
  add_cron-Moves id now i none o r = stays
  add_cron-Moves id now i (some e) o r = define-Moves id now _ r

  or_cron-Moves :
      (id : ℕ) (a b : Answer) (s : ScheduleInput) (r : SchedulerRegistry)
      → Moves (view id r) (view id a.0)
      → Moves (view id r) (view id b.0)
      → Moves (view id r) (view id (or_cron accepts a b s).0)
  or_cron-Moves id (a, inr h) b s r p q = p
  or_cron-Moves id (a, inl invalid_duration) (b, answer) s r p q = elim (Bool-cases s.is_text) [
    | inr number ↦ rw (number, or_cron) p
    | inl text ↦ go answer text
  ]
    where
      go :
          (answer : SchedulerError ⊎ ℕ)
          → s.is_text ≡ true
          → Moves (view id r) (view id (or_cron accepts (a, inl invalid_duration) (b, answer) s).0)
      go (inl e) text = rw (text, or_cron) q
      go (inr h) text = rw (text, or_cron) q
  or_cron-Moves id (a, inl e) b s r p q = p

  pub add-Moves :
      (id now i : ℕ) (s : ScheduleInput) (o : ScheduledTaskOptions) (r : SchedulerRegistry)
      → Moves (view id r) (view id (add accepts now i s o r).0)
  unfolding add
  add-Moves id now i s o r =
      or_cron-Moves id _ _ s r (add_interval-Moves id now i s.duration o r)
        (add_cron-Moves id now i s.expression o r)
