-- ===== src/Recovery/Tracker.antt =====
-- OrderTracker of ib_trader/engine/tracker.py. The events are flags: set, or not.
use ib_trader.Prelude.{
  String, Bool, true, false, ◌||◌, Option, none, some, List, [], ◌∷◌, ◌≡◌, refl, arith, inl, inr,
  Bool-cases, Option-cases, subst, ap, ◌∙◌,
}
use mathlib.Core.Option.{some-injective}
use ib_trader.Prelude.Text.{str_eq, str_eq_iff}
use ib_trader.Prelude.Dict.{
  Dict, lookup, insert, erase, lookup-insert, lookup-insert_self, lookup-erase,
}

pub record OrderTrack : Type 0 where
  pub order_id : String
  pub ib_order_id : String
  pub symbol : String
  pub fill_event : Bool
  pub cancel_event : Bool
  pub is_filled : Bool
  pub is_canceled : Bool

unfoldable pub register : String → String → String → Dict OrderTrack → Dict OrderTrack
register order_id ib_order_id symbol tracks =
    insert ib_order_id
      (record {
        order_id = order_id;
        ib_order_id = ib_order_id;
        symbol = symbol;
        fill_event = false;
        cancel_event = false;
        is_filled = false;
        is_canceled = false;
      })
      tracks

unfoldable pub notify_filled : String → Dict OrderTrack → Dict OrderTrack
notify_filled id tracks = elim (lookup id tracks) [
  | none ↦ tracks
  | some track ↦ insert id (record track { is_filled = true; fill_event = true }) tracks
]

unfoldable pub notify_canceled : String → Dict OrderTrack → Dict OrderTrack
notify_canceled id tracks = elim (lookup id tracks) [
  | none ↦ tracks
  | some track ↦
      insert id (record track { is_canceled = true; cancel_event = true; fill_event = true }) tracks
]

unfoldable pub unregister : String → Dict OrderTrack → Dict OrderTrack
unregister id tracks = erase id tracks

-- A call of the tracker by the reprice loop or a callback.
pub data Call : Type 0 where
  registers : String → String → String → Call
  fills : String → Call
  cancels : String → Call
  unregisters : String → Call

abbrev pub call : Call → Dict OrderTrack → Dict OrderTrack
call (registers order_id id symbol) tracks = register order_id id symbol tracks
call (fills id) tracks = notify_filled id tracks
call (cancels id) tracks = notify_canceled id tracks
call (unregisters id) tracks = unregister id tracks

abbrev pub calls : List Call → Dict OrderTrack → Dict OrderTrack
calls [] tracks = tracks
calls (c ∷ cs) tracks = calls cs (call c tracks)

-- The waiter of a track wakes exactly when the order is filled or cancelled.
pub record IsAwake (id : String) (track : OrderTrack) : Type 0 where
  pub wakes : track.fill_event ≡ track.is_filled || track.is_canceled
  pub cancelled : track.cancel_event ≡ track.is_canceled
  pub keyed : track.ib_order_id ≡ id

abbrev pub AllAwake : Dict OrderTrack → Type 0
AllAwake tracks =
    (id : String) (track : OrderTrack) → lookup id tracks ≡ some track → IsAwake id track

register-AllAwake :
    (order_id id symbol : String) (tracks : Dict OrderTrack)
    → AllAwake tracks
    → AllAwake (register order_id id symbol tracks)
unfolding register
register-AllAwake order_id id symbol tracks ok j track h =
    ground (arith, str_eq_iff id j, ok j track, rw (lookup-insert id j _ tracks) at h)

-- A track that is written back under its key.
insert-AllAwake :
    (id : String) (track : OrderTrack) (tracks : Dict OrderTrack)
    → IsAwake id track
    → AllAwake tracks
    → AllAwake (insert id track tracks)
insert-AllAwake id track tracks new ok j found h = elim (Bool-cases (str_eq id j)) [
  | inl same ↦
      let e = rw (lookup-insert id j track tracks, same) at h in
      subst (λ (t : OrderTrack). IsAwake j t) (some-injective _ _ e)
        (subst (λ (i : String). IsAwake i track) ((str_eq_iff id j).0 same) new)
  | inr other ↦ ok j found (rw (lookup-insert id j track tracks, other) at h)
]

erase-AllAwake :
    (id : String) (tracks : Dict OrderTrack) → AllAwake tracks → AllAwake (erase id tracks)
erase-AllAwake id tracks ok j track h =
    ground (arith, ok j track, rw (lookup-erase id j tracks) at h)

abbrev filled : OrderTrack → OrderTrack
filled track = record track { is_filled = true; fill_event = true }

abbrev canceled : OrderTrack → OrderTrack
canceled track = record track { is_canceled = true; cancel_event = true; fill_event = true }

filled_found :
    (id : String) (tracks : Dict OrderTrack) (track : OrderTrack)
    → lookup id tracks ≡ some track
    → notify_filled id tracks ≡ insert id (filled track) tracks
unfolding notify_filled
filled_found id tracks track h = rw (h, notify_filled) refl

canceled_found :
    (id : String) (tracks : Dict OrderTrack) (track : OrderTrack)
    → lookup id tracks ≡ some track
    → notify_canceled id tracks ≡ insert id (canceled track) tracks
unfolding notify_canceled
canceled_found id tracks track h = rw (h, notify_canceled) refl

not_found :
    (id : String) (tracks : Dict OrderTrack)
    → lookup id tracks ≡ none
    → (notify_filled id tracks ≡ tracks) × (notify_canceled id tracks ≡ tracks)
unfolding notify_filled notify_canceled
not_found id tracks h = (rw (h, notify_filled) refl, rw (h, notify_canceled) refl)

call-AllAwake : (c : Call) (tracks : Dict OrderTrack) → AllAwake tracks → AllAwake (call c tracks)
unfolding unregister
call-AllAwake (registers order_id id symbol) tracks ok =
    register-AllAwake order_id id symbol tracks ok
call-AllAwake (fills id) tracks ok = elim (Option-cases (lookup id tracks)) [
  | inl missing ↦ rw ((not_found id tracks missing).0) ok
  | inr (track, found) ↦
      rw (filled_found id tracks track found)
        (insert-AllAwake id (filled track) tracks (ground (arith, ok id track found)) ok)
]
call-AllAwake (cancels id) tracks ok = elim (Option-cases (lookup id tracks)) [
  | inl missing ↦ rw ((not_found id tracks missing).1) ok
  | inr (track, found) ↦
      rw (canceled_found id tracks track found)
        (insert-AllAwake id (canceled track) tracks (ground (arith, ok id track found)) ok)
]
call-AllAwake (unregisters id) tracks ok = erase-AllAwake id tracks ok

-- Whatever was called, a waiter of a track wakes exactly when its order is filled or cancelled.
pub calls-AllAwake :
    (cs : List Call) (tracks : Dict OrderTrack) → AllAwake tracks → AllAwake (calls cs tracks)
calls-AllAwake [] tracks ok = ok
calls-AllAwake (c ∷ cs) tracks ok = calls-AllAwake cs (call c tracks) (call-AllAwake c tracks ok)

abbrev flags : Option OrderTrack → Bool × Bool × Bool
flags none = (false, false, false)
flags (some track) = (track.fill_event, track.is_filled, track.is_canceled)

-- A fill of a registered order wakes its waiter as filled, a cancel as cancelled, and no call for
-- another order changes a track.
pub notify_effect :
    (id j : String) (tracks : Dict OrderTrack) (track : OrderTrack)
    → lookup id tracks ≡ some track
    → (flags (lookup id (notify_filled id tracks)) ≡ (true, true, track.is_canceled))
      × (flags (lookup id (notify_canceled id tracks)) ≡ (true, track.is_filled, true))
      × (str_eq id j ≡ false
          → (lookup j (notify_filled id tracks) ≡ lookup j tracks)
            × (lookup j (notify_canceled id tracks) ≡ lookup j tracks))
notify_effect id j tracks track h =
    rw (filled_found id tracks track h, canceled_found id tracks track h)
      (
        ap flags (lookup-insert_self id _ tracks),
        ap flags (lookup-insert_self id _ tracks),
        λ other. (
          lookup-insert id j _ tracks ∙ rw other refl,
          lookup-insert id j _ tracks ∙ rw other refl,
        ),
      )
