-- ===== src/Signals/Groups/Isolation.antt =====
-- ch06-2/ex01.c: whom the signal reaches.
use linux_systemprogramming.Common.{
  ◌≡◌, ◌⊎◌, refl, ap, ◌∙◌, Bool, true, false, List, [], ◌∷◌, all, arith,
}
use linux_systemprogramming.Signals.Groups.{
  Who, main, child1, child2, child3, MainPlace, forking_first, forking_second, sleeping,
  waiting_second, waiting_first, main_ended, reading_unset, Child1Place, Child2Place, child2_absent,
  setting_group, forking_third, waiting_third, falling_through, child2_ended, Child3Place,
  child3_absent, child3_sleeping, killing, child3_ended, Event, said_exiting, received_usr1, Family,
  start, is_child3_ended, main_step, child1_step, child2_step, child3_step, hit_main, hit_child1,
  hit_child2, hit_child3, hit_others, kill_group, step, run,
}

-- No text of main or child1 about the signal, and no "child2 exiting" or "child3 exiting".
abbrev pub spares : Event → Bool
spares (received_usr1 main) = false
spares (received_usr1 child1) = false
spares e = true

abbrev pub is_cut_off : Event → Bool
is_cut_off (said_exiting who child2) = false
is_cut_off (said_exiting who child3) = false
is_cut_off e = true

-- child2 is not yet behind setpgid.
abbrev is_early : Child2Place → Bool
is_early p = elim p [ child2_absent ↦ true | setting_group ↦ true | _ ↦ false ]

abbrev is_unborn : Child2Place → Bool
is_unborn p = elim p [ child2_absent ↦ true | _ ↦ false ]

abbrev is_absent : Child3Place → Bool
is_absent p = elim p [ child3_absent ↦ true | _ ↦ false ]

abbrev is_waiting : Child2Place → Bool
is_waiting p = elim p [ waiting_third ↦ true | _ ↦ false ]

abbrev is_forking : MainPlace → Bool
is_forking p = elim p [ forking_first ↦ true | forking_second ↦ true | _ ↦ false ]

record Apart (f : Family) : Type 0 where
  isolated : f.has_own_group ≡ true → all spares f.told ≡ true
  early : is_early f.child2_at ≡ true → (all spares f.told ≡ true) × (is_absent f.child3_at ≡ true)
  unborn : is_forking f.main_at ≡ true → is_unborn f.child2_at ≡ true
  alone :
      is_waiting f.child2_at ≡ false
      → (is_absent f.child3_at ≡ true) ⊎ (is_child3_ended f.child3_at ≡ true)
  waits : is_waiting f.child2_at ≡ true → is_child3_ended f.child3_at ≡ false
  cut_off : all is_cut_off f.told ≡ true

main_step-Apart :
    (ok : Bool) (p : MainPlace) (f : Family) → f.main_at ≡ p → Apart f → Apart (main_step ok p f)
unfolding main_step
main_step-Apart ok main_ended f e h = h
main_step-Apart ok reading_unset f e h = h
main_step-Apart true forking_first f e h = ground (arith, e, h)
main_step-Apart false forking_first f e h = ground (arith, e, h)
main_step-Apart true forking_second f e h = ground (arith, e, h)
main_step-Apart false forking_second f e h = ground (arith, e, h)
main_step-Apart ok sleeping f e h = ground (arith, e, h)
main_step-Apart ok waiting_second f e h = ground (arith, e, h)
main_step-Apart ok waiting_first f e h = ground (arith, e, h)

child1_step-Apart : (p : Child1Place) (f : Family) → Apart f → Apart (child1_step p f)
unfolding child1_step
child1_step-Apart p f h = ground (arith, h)

child2_step-Apart :
    (ok : Bool) (p : Child2Place) (f : Family)
    → f.child2_at ≡ p
    → Apart f
    → Apart (child2_step ok p f)
unfolding child2_step
child2_step-Apart ok child2_absent f e h = h
child2_step-Apart ok child2_ended f e h = h
child2_step-Apart true setting_group f e h = ground (arith, e, h)
child2_step-Apart false setting_group f e h = ground (arith, e, h)
child2_step-Apart true forking_third f e h = ground (arith, e, h)
child2_step-Apart false forking_third f e h = ground (arith, e, h)
child2_step-Apart ok waiting_third f e h = ground (arith, e, h)
child2_step-Apart ok falling_through f e h = ground (arith, e, h)

hit_main-Apart :
    (p : MainPlace) (f : Family)
    → f.has_own_group ≡ false
    → is_early f.child2_at ≡ false
    → Apart f
    → Apart (hit_main p f)
unfolding hit_main
hit_main-Apart p f n l h = ground (arith, n, l, h)

hit_child1-Apart :
    (p : Child1Place) (f : Family)
    → f.has_own_group ≡ false
    → is_early f.child2_at ≡ false
    → Apart f
    → Apart (hit_child1 p f)
unfolding hit_child1
hit_child1-Apart p f n l h = ground (arith, n, l, h)

hit_main-keeps :
    (p : MainPlace) (f : Family)
    → ((hit_main p f).has_own_group ≡ f.has_own_group) × ((hit_main p f).child2_at ≡ f.child2_at)
unfolding hit_main
hit_main-keeps p f = ground arith

-- child2 and child3 have ended by the signal.
abbrev own_hit : Family → Family
own_hit f = hit_child3 (hit_child2 f.child2_at f)

is_waiting-killing : (f : Family) → f.child3_at ≡ killing → Apart f → is_waiting f.child2_at ≡ true
is_waiting-killing f e h = ground (arith, e, h.alone)

own_hit-Apart : (f : Family) → is_waiting f.child2_at ≡ true → Apart f → Apart (own_hit f)
unfolding hit_child2
own_hit-Apart f w h = ground (arith, w, h)

own_hit-late : (f : Family) → is_waiting f.child2_at ≡ true → is_early (own_hit f).child2_at ≡ false
unfolding hit_child2
own_hit-late f w = ground (arith, w)

own_hit-group : (f : Family) → (own_hit f).has_own_group ≡ f.has_own_group
unfolding hit_child2
own_hit-group f = ground arith

hit_others-Apart :
    (b : Bool) (f : Family)
    → f.has_own_group ≡ b
    → is_early f.child2_at ≡ false
    → Apart f
    → Apart (hit_others b f)
unfolding hit_others
hit_others-Apart true f e l h = h
hit_others-Apart false f e l h =
    let g = hit_main f.main_at f in
    let (same, there) = hit_main-keeps f.main_at f in
    hit_child1-Apart g.child1_at g (same ∙ e) (ap is_early there ∙ l)
      (hit_main-Apart f.main_at f e l h)

kill_group-Apart : (f : Family) → f.child3_at ≡ killing → Apart f → Apart (kill_group f)
unfolding kill_group
kill_group-Apart f e h =
    let w = is_waiting-killing f e h in
    hit_others-Apart f.has_own_group (own_hit f) (own_hit-group f) (own_hit-late f w)
      (own_hit-Apart f w h)

child3_step-Apart :
    (p : Child3Place) (f : Family) → f.child3_at ≡ p → Apart f → Apart (child3_step p f)
unfolding child3_step
child3_step-Apart child3_absent f e h = h
child3_step-Apart child3_ended f e h = h
child3_step-Apart child3_sleeping f e h = ground (arith, e, h)
child3_step-Apart killing f e h = kill_group-Apart f e h

step-Apart : (who : Who) (ok : Bool) (f : Family) → Apart f → Apart (step who ok f)
unfolding step
step-Apart main ok f h = main_step-Apart ok f.main_at f refl h
step-Apart child1 ok f h = child1_step-Apart f.child1_at f h
step-Apart child2 ok f h = child2_step-Apart ok f.child2_at f refl h
step-Apart child3 ok f h = child3_step-Apart f.child3_at f refl h

start-Apart : Apart start
start-Apart = ground arith

run-Apart : (ms : List (Who × Bool)) (f : Family) → Apart f → Apart (run ms f)
unfolding run
run-Apart [] f h = h
run-Apart ((who, ok) ∷ ms) f h = run-Apart ms (step who ok f) (step-Apart who ok f h)

-- In any order of the processes' steps: when setpgid has given child2 a group of its own, the signal
-- reaches neither main nor child1; and whether it has or not, neither child2 nor child3 ever prints that
-- it is exiting, since the signal ends both before.
pub run_isolated :
    (ms : List (Who × Bool))
    → ((run ms start).has_own_group ≡ true → all spares (run ms start).told ≡ true)
      × (all is_cut_off (run ms start).told ≡ true)
run_isolated ms = let h = run-Apart ms start start-Apart in (h.isolated, h.cut_off)
