-- ===== src/Runtime/Scheduler/Ownership.antt =====
-- Who has an actor: how often a pid stands in the run queues and in the hands of the workers.
use aithon.Prelude.{
  ℕ, zero, suc, ◌+◌, ◌≤◌, ◌≡◌, ◌≢◌, inl, inr, refl, ap, Bool, true, false, none, some, List, [],
  ◌∷◌, ◌++◌, arith, Bool-cases, Option-cases, get_elem?, ◌==◌, if◌then◌else◌,
}
use aithon.Runtime.Scheduler.{
  Phase, idle, took, ran, seeks, Worker, Scheduler, update, push_back, schedule_actor, find_actor,
  get_next_actor, get_next, pop_front, stop, stop_all,
}
use aithon.Runtime.Scheduler.Queues.{reverse, Robbery, robbed-Robbery, steal_work_lem}
use aithon.Runtime.Scheduler.Rounds.{robbed, enriched, steal_work}

abbrev pub same : ℕ → ℕ → ℕ
same p pid = if p == pid then 1 else 0

abbrev pub count : ℕ → List ℕ → ℕ
count pid [] = 0
count pid (x ∷ xs) = same x pid + count pid xs

abbrev pub held : ℕ → Phase → ℕ
held pid idle = 0
held pid (took p) = same p pid
held pid (ran p again) = same p pid
held pid seeks = 0

abbrev pub owns : ℕ → Worker → ℕ
owns pid w = count pid w.run_queue + held pid w.phase

-- How often the workers have an actor, in all.
abbrev pub tally : ℕ → List Worker → ℕ
tally pid [] = 0
tally pid (w ∷ ws) = owns pid w + tally pid ws

count-append : (pid : ℕ) (xs ys : List ℕ) → count pid (xs ++ ys) ≡ count pid xs + count pid ys
count-append pid [] ys = omega arith
count-append pid (x ∷ xs) ys = omega (arith, count-append pid xs ys)

count-reverse : (pid : ℕ) (xs : List ℕ) → count pid (reverse xs) ≡ count pid xs
count-reverse pid [] = refl
count-reverse pid (x ∷ xs) =
    omega (arith, count-append pid (reverse xs) (x ∷ []), count-reverse pid xs)

pub tally-update :
    (pid : ℕ) (ws : List Worker) (i : ℕ) (f : Worker → Worker) (w : Worker)
    → get_elem? ws i ≡ some w
    → tally pid (update ws i f) + owns pid w ≡ tally pid ws + owns pid (f w)
unfolding update
tally-update pid [] i f w e = absurd (cc)
tally-update pid (v ∷ ws) zero f w e = let same_worker : v ≡ w = cc in rw same_worker (omega arith)
tally-update pid (v ∷ ws) (suc i) f w e = omega (arith, tally-update pid ws i f w e)

pub tally-update_le :
    (pid : ℕ) (ws : List Worker) (i : ℕ) (f : Worker → Worker) (k : ℕ)
    → ((w : Worker) → owns pid (f w) ≤ owns pid w + k)
    → tally pid (update ws i f) ≤ tally pid ws + k
unfolding update
tally-update_le pid [] i f k h = omega arith
tally-update_le pid (v ∷ ws) zero f k h = omega (arith, h v)
tally-update_le pid (v ∷ ws) (suc i) f k h = omega (arith, tally-update_le pid ws i f k h)

owns-push_back : (pid p : ℕ) (w : Worker) → owns pid (push_back w p) ≡ owns pid w + same p pid
owns-push_back pid p w = omega (arith, count-append pid w.run_queue (p ∷ []))

pub tally-schedule_actor :
    (pid p : ℕ) (s : Scheduler) (i : ℕ)
    → tally pid (schedule_actor s p i).workers ≤ tally pid s.workers + same p pid
unfolding schedule_actor
tally-schedule_actor pid p s i = elim (Option-cases (find_actor p s.actors)) [
  | inl e ↦ rw (e, schedule_actor) (omega arith)
  | inr (a, e) ↦
      rw (e, schedule_actor)
        (tally-update_le pid s.workers i (λ w. push_back w p) (same p pid)
          (λ w. omega (arith, owns-push_back pid p w)))
]

owns-pop_front :
    (pid : ℕ) (w : Worker) (q : List ℕ)
    → w.run_queue ≡ q
    → w.phase ≡ idle
    → owns pid (pop_front w q) ≤ owns pid w + 0
owns-pop_front pid w [] e i = omega arith
owns-pop_front pid w (x ∷ q) e i = rw (e, i) (omega arith)

owns-pop_if :
    (pid : ℕ) (w : Worker) (on : Bool)
    → w.phase ≡ idle
    → owns pid (if on then pop_front w w.run_queue else w) ≤ owns pid w + 0
owns-pop_if pid w true e = owns-pop_front pid w w.run_queue refl e
owns-pop_if pid w false e = omega arith

owns-get_next :
    (pid : ℕ) (w : Worker) (p : Phase) → w.phase ≡ p → owns pid (get_next p w) ≤ owns pid w + 0
owns-get_next pid w idle e = owns-pop_if pid w w.running e
owns-get_next pid w _ e = omega arith

pub owns-get_next_actor : (pid : ℕ) (w : Worker) → owns pid (get_next_actor w) ≤ owns pid w + 0
unfolding get_next_actor
owns-get_next_actor pid w = owns-get_next pid w w.phase refl

pub tally-stop_all : (pid : ℕ) (ws : List Worker) → tally pid (stop_all ws) ≡ tally pid ws
unfolding stop
tally-stop_all pid [] = refl
tally-stop_all pid (w ∷ ws) = omega (arith, tally-stop_all pid ws)

Robbery-conserves :
    (pid : ℕ) (thief victim thief' victim' : Worker)
    → Robbery thief victim thief' victim'
    → count pid thief'.run_queue + count pid victim'.run_queue
      ≡ count pid thief.run_queue + count pid victim.run_queue
Robbery-conserves pid thief victim thief' victim' r =
    rw (r.thief_queue, r.victim_queue, r.whole)
      (omega (
        arith,
        count-append pid thief.run_queue r.moved,
        count-append pid r.keep (reverse r.moved),
        count-reverse pid r.moved,
      ))

update_missing :
    (ws : List Worker) (i : ℕ) (f : Worker → Worker) → get_elem? ws i ≡ none → update ws i f ≡ ws
unfolding update
update_missing [] i f e = refl
update_missing (w ∷ ws) zero f e = absurd (cc)
update_missing (w ∷ ws) (suc i) f e = ap (λ r. w ∷ r) (update_missing ws i f e)

owns-robbed : (pid : ℕ) (victim : Worker) → owns pid (robbed victim) ≤ owns pid victim
unfolding robbed
owns-robbed pid victim =
    let r = robbed-Robbery victim victim in
    omega (
      arith,
      Robbery-conserves pid victim victim _ _ r,
      ap (count pid) r.thief_queue,
      count-append pid victim.run_queue r.moved,
    )

owns-robbery :
    (pid : ℕ) (thief victim : Worker)
    → owns pid (enriched victim thief) + owns pid (robbed victim) ≡ owns pid thief + owns pid victim
unfolding robbed enriched
owns-robbery pid thief victim =
    omega (arith, Robbery-conserves pid thief victim _ _ (robbed-Robbery thief victim))

tally-two :
    (pid : ℕ) (ws : List Worker) (thief_id victim_id : ℕ) (victim : Worker)
    → thief_id ≢ victim_id
    → get_elem? ws victim_id ≡ some victim
    → tally pid (update (update ws victim_id robbed) thief_id (enriched victim)) ≤ tally pid ws
tally-two pid ws thief_id victim_id victim ne ev =
    elim (Option-cases (get_elem? (update ws victim_id robbed) thief_id)) [
      | inl e ↦
          rw (update_missing _ thief_id (enriched victim) e)
            (omega (arith, tally-update pid ws victim_id robbed victim ev, owns-robbed pid victim))
      | inr (thief, e) ↦ omega (
        arith,
        tally-update pid (update ws victim_id robbed) thief_id (enriched victim) thief e,
        tally-update pid ws victim_id robbed victim ev,
        owns-robbery pid thief victim,
      )
    ]

-- A theft brings nothing in.
pub tally-steal_work :
    (pid : ℕ) (s : Scheduler) (thief_id victim_id : ℕ)
    → tally pid (steal_work s thief_id victim_id).workers ≤ tally pid s.workers
unfolding steal_work
tally-steal_work pid s thief_id victim_id = elim (Bool-cases (thief_id == victim_id)) [
  | inl e ↦ rw (e, steal_work) (omega arith)
  | inr ne ↦ elim (Option-cases (get_elem? s.workers victim_id)) [
    | inl e ↦ rw (ne, steal_work) (rw e (omega arith))
    | inr (victim, e) ↦
        let differ : thief_id ≢ victim_id = ground arith in
        rw (steal_work_lem s thief_id victim_id victim differ e)
          (tally-two pid s.workers thief_id victim_id victim differ e)
  ]
]
