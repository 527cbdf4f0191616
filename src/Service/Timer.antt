-- ===== src/Service/Timer.antt =====
-- Timer of cpp/common/Timer.h and Timer.cpp.
use testcluster.Prelude.{ℕ, ◌≡◌, none, some, List, ◌==◌, Option-cases, inl, inr, ==_refl}
use testcluster.Service.Table.{find, erase, assign, find-erase, find-assign}

-- TimerInfo: `F` names the callbacks; the uid is the bit pattern of an int64_t.
pub record TimerInfo (F : Type 0) : Type 0 where
  pub func : F
  pub uid : ℕ

-- Timer, with m_process_uid of its service, and `world`, what callbacks change besides. m_t_idx, which nothing
-- reads, is left out.
pub record Timer (F W : Type 0) : Type 0 where
  pub timers : List (ℕ × TimerInfo F)
  pub process_uid : ℕ
  pub world : W

module _ {F W : Type 0} where
  -- `session` is what skynet_context_newsession gives; skynet_timeout is told of `time` and of it.
  unfoldable pub start_timer : Timer F W → ℕ → ℕ → F → ℕ × Timer F W × (ℕ × ℕ)
  start_timer t session time f =
      let info : TimerInfo F = record { func = f; uid = t.process_uid } in
      (session, record t { timers = assign ◌==◌ session info t.timers }, (time, session))

  -- The timer, and what `id` is set to.
  unfoldable pub stop_timer : Timer F W → ℕ → Timer F W × ℕ
  stop_timer t id = (record t { timers = erase ◌==◌ id t.timers }, 0)

  -- `run` is what a callback does; it can start and stop timers.
  unfoldable pub timer_timeout : (F → Timer F W → Timer F W) → Timer F W → ℕ → Timer F W
  timer_timeout run t id = elim (find ◌==◌ id t.timers) [
    | none ↦ t
    | some info ↦
        let after = run info.func (record t { process_uid = info.uid }) in
        record after { timers = erase ◌==◌ id after.timers; process_uid = 0 }
  ]

  gone :
      (run : F → Timer F W → Timer F W) (t : Timer F W) (id : ℕ)
      → find ◌==◌ id t.timers ≡ none
      → timer_timeout run t id ≡ t
  unfolding timer_timeout
  gone run t id e = rw (e, timer_timeout)

  -- A timer that was stopped does not run when its time comes, and one that ran does not run again.
  pub timer_once :
      (run : F → Timer F W → Timer F W) (t : Timer F W) (id : ℕ)
      → (timer_timeout run ((stop_timer t id).0) id ≡ (stop_timer t id).0)
        × (timer_timeout run (timer_timeout run t id) id ≡ timer_timeout run t id)
  unfolding stop_timer timer_timeout
  timer_once run t id = (
    gone run ((stop_timer t id).0) id (find-erase ◌==◌ id t.timers),
    elim (Option-cases (find ◌==◌ id t.timers)) [
      | inl e ↦ gone run (timer_timeout run t id) id (rw (e, timer_timeout) e)
      | inr (info, e) ↦
          gone run (timer_timeout run t id) id (rw (e, timer_timeout) (find-erase ◌==◌ id _))
    ],
  )

  -- A callback runs with the uid that was being served when its timer was started, whatever has been served since.
  pub timer_keeps_uid :
      (run : F → Timer F W → Timer F W) (t : Timer F W) (session time now : ℕ) (f : F)
      → timer_timeout run (record ((start_timer t session time f).1) { process_uid = now }) session
        ≡ (let after = run f ((start_timer t session time f).1) in
            record after { timers = erase ◌==◌ session after.timers; process_uid = 0 })
  unfolding start_timer timer_timeout
  timer_keeps_uid run t session time now f =
      let info : TimerInfo F = record { func = f; uid = t.process_uid } in
      let listed = find-assign ◌==◌ session info t.timers (==_refl session) in
      rw (listed, timer_timeout)
