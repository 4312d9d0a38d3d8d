-- ===== src/Timer.antt =====
-- event_timer.h and event_timer.c: timers in a red-black tree by their time in milliseconds.
mod Order
mod Tests
use libcn.Prelude.{
  ℕ, zero, suc, ◌+◌, ◌-◌, ◌^◌, Ptr, null, Bool, true, false, Option, none, some, ltb, leb, ◌==◌,
  if◌then◌else◌, not, u64, sub64, ◌||◌, ◌&&◌,
}
use libcn.Rbtree.{Rbtree, rbtree_min, rbtree_insert, rbtree_next, rbtree_init, set_key}
use libcn.Rbtree.Delete.{rbtree_delete}
use libcn.World.{World, Event, set_event}

-- `TIMER_INFINITE` is `(rbtree_key_t)-1`.
abbrev pub timer_infinite : ℕ
timer_infinite = 0xffff_ffff_ffff_ffff

abbrev pub timer_lazy_delay : ℕ
timer_lazy_delay = 300

-- `(rbtree_key_int_t)v < 0` and `> 0` of a 64-bit word.
abbrev pub is_negative : ℕ → Bool
is_negative v = leb (2 ^ 63) v

abbrev pub is_positive : ℕ → Bool
is_positive v = ltb 0 v && ltb v (2 ^ 63)

-- `c_abs((rbtree_key_int_t)v)`; the one value whose negation C leaves open, -2^63, is 2^63 here.
abbrev pub c_abs : ℕ → ℕ
c_abs v = if is_negative v then 2 ^ 64 - v else v

-- The comparison of `rbtree_insert_timer_value`: `(rbtree_key_int_t)(node->key - temp->key) < 0`.
unfoldable pub timer_less : ℕ → ℕ → Bool
timer_less key other = is_negative (sub64 key other)

unfoldable pub event_timer_init : World → Ptr → World
unfolding rbtree_init
event_timer_init w sentinel = record w { timers = rbtree_init w.timers sentinel }

-- The milliseconds up to the first timer, 0 if it is due; `none` when the fuel runs out.
unfoldable pub event_find_timer : ℕ → World → Option ℕ
unfolding rbtree_min
event_find_timer fuel w =
    if w.timers.root == w.timers.sentinel
    then some timer_infinite
    else elim (rbtree_min fuel w.timers w.timers.root) [
      | none ↦ none
      | some node ↦
          let timer = sub64 (w.timers.key node) w.current_msec in
          some (if is_positive timer then timer else 0)
    ]

unfoldable pub event_del_timer : ℕ → World → Ptr → Option World
unfolding rbtree_delete
event_del_timer fuel w ev = elim (rbtree_delete fuel w.timers ev) [
  | none ↦ none
  | some t ↦
      some (set_event (record w { timers = t }) ev (record (w.events ev) { timer_set = false }))
]

-- The end of `event_add_timer`: the key is set and the node inserted.
unfoldable pub start_timer : ℕ → World → Ptr → ℕ → Option World
unfolding rbtree_insert timer_less
start_timer fuel w ev key = elim (rbtree_insert fuel timer_less (set_key w.timers ev key) ev) [
  | none ↦ none
  | some t ↦
      some (set_event (record w { timers = t }) ev (record (w.events ev) { timer_set = true }))
]

-- `TIMER_LAZY_DELAY` milliseconds or more move a timer that is set; less leave it.
unfoldable pub event_add_timer : ℕ → World → Ptr → ℕ → Option World
unfolding event_del_timer start_timer
event_add_timer fuel w ev timer =
    let key = u64 (w.current_msec + timer) in
    let restart : Option World = elim (event_del_timer fuel w ev) [
      | none ↦ none
      | some w1 ↦ start_timer fuel w1 ev key
    ] in
    if (w.events ev).timer_set
    then (if ltb (c_abs (sub64 key (w.timers.key ev))) timer_lazy_delay then some w else restart)
    else start_timer fuel w ev key

-- The loop of `event_expire_timers`, a round on each unit of `rounds`, with `fuel` for the loops of
-- the tree; `handle` runs `ev->handler(ev)`.
unfoldable pub event_expire_timers : ℕ → ℕ → (Ptr → World → Option World) → World → Option World
unfolding rbtree_min rbtree_delete
event_expire_timers fuel zero handle w = none
event_expire_timers fuel (suc rounds) handle w = elim (w.timers.root == w.timers.sentinel) [
  | true ↦ some w
  | false ↦ elim (rbtree_min fuel w.timers w.timers.root) [
    | none ↦ none
    | some ev ↦ elim (is_positive (sub64 (w.timers.key ev) w.current_msec)) [
      | true ↦ some w
      | false ↦ elim (rbtree_delete fuel w.timers ev) [
        | none ↦ none
        | some t ↦
            let e = record (w.events ev) { timer_set = false; timedout = true } in
            elim (handle ev (set_event (record w { timers = t }) ev e)) [
              | none ↦ none
              | some w' ↦ event_expire_timers fuel rounds handle w'
            ]
      ]
    ]
  ]
]

-- The loop of `event_no_timers_left`: `some true` for the return of 0, `some false` for -2.
unfoldable pub no_timers_from : ℕ → ℕ → World → Ptr → Option Bool
unfolding rbtree_next
no_timers_from fuel zero w node = none
no_timers_from fuel (suc rounds) w node = elim (node == null) [
  | true ↦ some true
  | false ↦ elim (w.events node).cancelable [
    | false ↦ some false
    | true ↦ elim (rbtree_next fuel w.timers node) [
      | none ↦ none
      | some n ↦ no_timers_from fuel rounds w n
    ]
  ]
]

unfoldable pub event_no_timers_left : ℕ → World → Option Bool
unfolding no_timers_from rbtree_min
event_no_timers_left fuel w =
    if w.timers.root == w.timers.sentinel
    then some true
    else elim (rbtree_min fuel w.timers w.timers.root) [
      | none ↦ none
      | some node ↦ no_timers_from fuel fuel w node
    ]
