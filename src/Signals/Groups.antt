-- ===== src/Signals/Groups.antt =====
-- ch06-2/ex01.c: main, its children child1 and child2, and child3 of child2, which sends SIGUSR1 to its
-- process group. A handled signal ends the process with a text; its handler is in place before any fork.
pub mod Isolation
mod Tests
use linux_systemprogramming.Common.{
  Bool, true, false, not, ◌&&◌, ◌||◌, List, [], ◌∷◌, ◌++◌, if◌then◌else◌,
}
use linux_systemprogramming.Common.Text.{CString, codes}

pub data Who : Type 0 where
  main child1 child2 child3 : Who

-- In front of which call each process is.
pub data MainPlace : Type 0 where
  forking_first forking_second sleeping waiting_second waiting_first main_ended : MainPlace
  -- the first fork has failed: `cpid2`, which is then never written, is given to waitpid
  reading_unset : MainPlace

pub data Child1Place : Type 0 where
  child1_absent child1_sleeping child1_ended : Child1Place

pub data Child2Place : Type 0 where
  child2_absent setting_group forking_third waiting_third falling_through child2_ended : Child2Place

pub data Child3Place : Type 0 where
  child3_absent child3_sleeping killing child3_ended : Child3Place

pub data Event : Type 0 where
  complained : Who → CString → Event
  -- "main exiting", "child1 exiting" and so on, printed by a process
  said_exiting : Who → Who → Event
  received_usr1 : Who → Event

pub record Family : Type 0 where
  pub main_at : MainPlace
  pub child1_at : Child1Place
  pub child2_at : Child2Place
  pub child3_at : Child3Place
  pub is_second_forked : Bool
  -- whether setpgid has put child2 into a group of its own
  pub has_own_group : Bool
  -- newest first
  pub told : List Event

abbrev pub start : Family
start = record {
  main_at = forking_first;
  child1_at = child1_absent;
  child2_at = child2_absent;
  child3_at = child3_absent;
  is_second_forked = false;
  has_own_group = false;
  told = [];
}

abbrev pub tell : Event → Family → Family
tell e f = record f { told = e ∷ f.told }

abbrev pub is_child1_ended : Child1Place → Bool
is_child1_ended p = elim p [ child1_ended ↦ true | _ ↦ false ]

abbrev pub is_child2_ended : Child2Place → Bool
is_child2_ended p = elim p [ child2_ended ↦ true | _ ↦ false ]

abbrev pub is_child3_ended : Child3Place → Bool
is_child3_ended p = elim p [ child3_ended ↦ true | _ ↦ false ]

-- The next call of a process; the Boolean is whether fork or setpgid succeeds. A process that waits stays
-- where it is. After a failed second fork waitpid gets -1, and waits for child1.
unfoldable pub main_step : Bool → MainPlace → Family → Family
main_step true forking_first f = record f { main_at = forking_second; child1_at = child1_sleeping }
main_step false forking_first f =
    tell (complained main (codes "fork")) (record f { main_at = reading_unset })
main_step true forking_second f = record f {
  main_at = sleeping;
  child2_at = setting_group;
  is_second_forked = true;
}
main_step false forking_second f =
    tell (complained main (codes "fork2")) (record f { main_at = sleeping })
main_step ok sleeping f = record f { main_at = waiting_second }
main_step ok waiting_second f =
    if (if f.is_second_forked then is_child2_ended f.child2_at else is_child1_ended f.child1_at)
    then record f { main_at = waiting_first }
    else f
main_step ok waiting_first f =
    if is_child1_ended f.child1_at
    then tell (said_exiting main main) (record f { main_at = main_ended })
    else f
main_step ok main_ended f = f
main_step ok reading_unset f = f

unfoldable pub child1_step : Child1Place → Family → Family
child1_step child1_absent f = f
child1_step child1_sleeping f =
    tell (said_exiting child1 child1) (record f { child1_at = child1_ended })
child1_step child1_ended f = f

-- Behind a failed third fork child2 goes on with the code of main: it has no children to wait for.
unfoldable pub child2_step : Bool → Child2Place → Family → Family
child2_step ok child2_absent f = f
child2_step true setting_group f = record f { child2_at = forking_third; has_own_group = true }
child2_step false setting_group f =
    tell (complained child2 (codes "setpgid error:")) (record f { child2_at = forking_third })
child2_step true forking_third f = record f {
  child2_at = waiting_third;
  child3_at = child3_sleeping;
}
child2_step false forking_third f =
    tell (complained child2 (codes "fork3")) (record f { child2_at = falling_through })
child2_step ok waiting_third f =
    if is_child3_ended f.child3_at
    then tell (said_exiting child2 child2) (record f { child2_at = child2_ended })
    else f
child2_step ok falling_through f =
    tell (said_exiting child2 main) (record f { child2_at = child2_ended })
child2_step ok child2_ended f = f

-- SIGUSR1 for a process: one that is there prints its text and exits.
unfoldable pub hit_main : MainPlace → Family → Family
hit_main main_ended f = f
hit_main p f = tell (received_usr1 main) (record f { main_at = main_ended })

unfoldable pub hit_child1 : Child1Place → Family → Family
hit_child1 child1_sleeping f = tell (received_usr1 child1) (record f { child1_at = child1_ended })
hit_child1 p f = f

unfoldable pub hit_child2 : Child2Place → Family → Family
hit_child2 child2_absent f = f
hit_child2 child2_ended f = f
hit_child2 p f = tell (received_usr1 child2) (record f { child2_at = child2_ended })

-- The sender gets the signal before kill returns.
abbrev pub hit_child3 : Family → Family
hit_child3 f = tell (received_usr1 child3) (record f { child3_at = child3_ended })

-- `kill(-getpgid(getpid()), SIGUSR1)` of child3: its group is child2 and child3, or all four.
unfoldable pub hit_others : Bool → Family → Family
unfolding hit_main hit_child1
hit_others true f = f
hit_others false f = let g = hit_main f.main_at f in hit_child1 g.child1_at g

unfoldable pub kill_group : Family → Family
unfolding hit_child2 hit_others
kill_group f = hit_others f.has_own_group (hit_child3 (hit_child2 f.child2_at f))

unfoldable pub child3_step : Child3Place → Family → Family
unfolding kill_group
child3_step child3_absent f = f
child3_step child3_sleeping f = record f { child3_at = killing }
child3_step killing f = kill_group f
child3_step child3_ended f = f

unfoldable pub step : Who → Bool → Family → Family
unfolding main_step child1_step child2_step child3_step
step main ok f = main_step ok f.main_at f
step child1 ok f = child1_step f.child1_at f
step child2 ok f = child2_step ok f.child2_at f
step child3 ok f = child3_step f.child3_at f

-- Any order of the processes' steps.
unfoldable pub run : List (Who × Bool) → Family → Family
unfolding step
run [] f = f
run ((who, ok) ∷ ms) f = run ms (step who ok f)
