-- ===== src/Lifecycle/Started.antt =====
-- compute_space/src/compute_space/core/apps.py: which containers a launch may lose.
use aerosol.Prelude.{
  nat_eq, list_eq, ◌==◌, eq_iff, ◌≡◌, ◌≢◌, refl, sym, ap, inl, inr, Bool, true, false, Option, none,
  some, arith, Elem, elem-delete_where, Text,
}
use aerosol.Prelude.Outcome.{Outcome, ok, err}
use aerosol.Db.{App, running, error}
use aerosol.Lifecycle.{update_app}
use aerosol.Lifecycle.Launch.{
  StopEnd, gone, still_there, stop_raised, leave_running, Container, Runtime, Launch,
  record_failure, set_container, remove_stale, stop_container, clean_up, finish, start,
  no_answer_message,
}
use aerosol.Lifecycle.Rows.{RowsAre, RowsAre-update_app}
use aerosol.Lifecycle.Tracked.{
  IsTrackedBut, IsClear, Own, change-IsClear, change-IsTracked, fewer-IsClear, fail-IsTracked,
}

module _ (row : App) (Lost : Container → Type 0) where
  stopped-Own :
      (container_id : Text) (other : Option Text) (rt : Runtime)
      → Own row Lost (some container_id) rt
      → Own row Lost other (stop_container container_id rt)
  unfolding stop_container
  stopped-Own container_id other rt own c m mine =
      let (listed, kept) =
        (elem-delete_where (λ (x : Container). x.container_id == container_id) c rt.containers).0
          m in
      elim (own c listed mine) [
        | inl o ↦
            let same : c.container_id ≡ container_id = ground arith in
            let stopped = (eq_iff c.container_id container_id).1 same in cc
        | inr lost ↦ inr lost
      ]

  stopped-IsClear :
      (container_id : Text) (rt : Runtime)
      → IsClear row Lost rt
      → IsClear row Lost (stop_container container_id rt)
  unfolding stop_container
  stopped-IsClear container_id rt k =
      fewer-IsClear row Lost (λ c. c.container_id == container_id) rt k

  -- A container that could not be stopped, without an exception, is lost.
  abbrev Forgets : Text → StopEnd → Type 0
  Forgets container_id end =
      end ≡ still_there
      → (c : Container) → c.app_name ≡ row.name
      → c.container_id ≡ container_id
      → Lost c

  clean_up-IsTracked :
      (container_id message : Text) (rt : Runtime)
      → IsClear row Lost rt
      → Own row Lost (some container_id) rt
      → (end : StopEnd) → Forgets container_id end
      → IsTrackedBut Lost (clean_up row.app_id container_id message end rt).0
  unfolding clean_up
  clean_up-IsTracked container_id message rt k own gone forgets =
      fail-IsTracked row Lost message none (stop_container container_id rt)
        (stopped-IsClear container_id rt k) (stopped-Own container_id none rt own)
  clean_up-IsTracked container_id message rt k own still_there forgets =
      fail-IsTracked row Lost message none rt k (λ c m mine. elim (own c m mine) [
        | inl o ↦ inr (forgets refl c mine (ground arith))
        | inr lost ↦ inr lost
      ])
  clean_up-IsTracked container_id message rt k own (stop_raised true) forgets =
      fail-IsTracked row Lost message (some container_id) (stop_container container_id rt)
        (stopped-IsClear container_id rt k) (stopped-Own container_id (some container_id) rt own)
  clean_up-IsTracked container_id message rt k own (stop_raised false) forgets =
      fail-IsTracked row Lost message (some container_id) rt k own

  finish-IsTracked :
      (container_id : Text) (launch : Launch) (rt : Runtime)
      → IsClear row Lost rt
      → Own row Lost (some container_id) rt
      → RowsAre row.app_id (λ a. a.container_id ≡ some container_id) rt.db
      → ((message : Text) → launch.wait_for_ready ≡ err message → Forgets container_id launch.stop)
      → IsTrackedBut Lost (finish row.app_id container_id launch rt).0
  unfolding finish
  finish-IsTracked container_id launch rt k own rows forgets = by_answer launch.wait_for_ready refl
    where
      by_answer :
          (o : Outcome Text Bool)
          → launch.wait_for_ready ≡ o
          → IsTrackedBut Lost
              (elim o as (λ _. Runtime × Option Text) [
                | ok true ↦ (
                  record rt {
                    db =
                        update_app row.app_id
                          (λ a. record a { status = running; error_message = none })
                          rt.db;
                  },
                  none,
                )
                | ok false ↦ (
                  record rt {
                    db =
                        update_app row.app_id
                          (λ a. record a { status = error; error_message = some no_answer_message })
                          rt.db;
                  },
                  none,
                )
                | err message ↦ clean_up row.app_id container_id message launch.stop rt
              ]).0
      by_answer (ok true) e =
          change-IsTracked row Lost (λ a. record a { status = running; error_message = none })
            (some container_id) rt
            (record { same_id = λ a. refl; same_name = λ a. refl; same_port = λ a. refl }) rows k
            own
      by_answer (ok false) e =
          change-IsTracked row Lost
            (λ a. record a { status = error; error_message = some no_answer_message })
            (some container_id) rt
            (record { same_id = λ a. refl; same_name = λ a. refl; same_port = λ a. refl }) rows k
            own
      by_answer (err message) e =
          clean_up-IsTracked container_id message rt k own launch.stop (forgets message e)

  stale-Own :
      (container_id : Option Text) (removes : Bool) (rt : Runtime)
      → (removes ≡ false → Own row Lost container_id rt)
      → Own row Lost container_id (remove_stale removes row.name rt)
  unfolding remove_stale
  stale-Own container_id true rt kept c m mine =
      let (listed, other) =
        (elem-delete_where (λ (x : Container). x.app_name == row.name) c rt.containers).0 m in
      let removed = (eq_iff c.app_name row.name).1 mine in cc
  stale-Own container_id false rt kept c m mine = kept refl c m mine

  stale-IsClear :
      (removes : Bool) (rt : Runtime)
      → IsClear row Lost rt
      → IsClear row Lost (remove_stale removes row.name rt)
  unfolding remove_stale
  stale-IsClear true rt k = fewer-IsClear row Lost (λ c. c.app_name == row.name) rt k
  stale-IsClear false rt k = k

  left-IsClear :
      (o : Option Text) (rt : Runtime)
      → IsClear row Lost rt
      → IsClear row Lost (leave_running o row.name rt)
  unfolding leave_running
  left-IsClear none rt k = k
  left-IsClear (some container_id) rt k = record {
    distinct = k.distinct;
    present = k.present;
    others = λ c m. elim m [
      | inl e ↦ inl (ap (λ (x : Container). x.app_name) (sym e))
      | inr older ↦ k.others c older
    ];
  }

  left-Own :
      (o : Option Text) (rt : Runtime)
      → ((c : Container) → o ≡ some c.container_id → c.app_name ≡ row.name → Lost c)
      → Own row Lost none rt
      → Own row Lost none (leave_running o row.name rt)
  unfolding leave_running
  left-Own none rt lost own c m mine = own c m mine
  left-Own (some container_id) rt lost own c (inl e) mine =
      inr (lost c (ap (λ (x : Container). some x.container_id) e) mine)
  left-Own (some container_id) rt lost own c (inr m) mine = own c m mine

  abbrev to_container : Text → App → App
  to_container container_id a = record a { container_id = some container_id }

  set-IsClear :
      (container_id : Text) (rt : Runtime)
      → IsClear row Lost rt
      → IsClear row Lost (set_container row.app_id row.name container_id rt)
  unfolding set_container
  set-IsClear container_id rt k =
      let changed =
        change-IsClear row Lost (to_container container_id) rt
          (record { same_id = λ a. refl; same_name = λ a. refl; same_port = λ a. refl }) k in
      record {
        distinct = changed.distinct;
        present = changed.present;
        others = λ c m. elim m [
          | inl e ↦ inl (ap (λ (x : Container). x.app_name) (sym e))
          | inr older ↦ changed.others c older
        ];
      }

  set-Own :
      (container_id : Text) (rt : Runtime)
      → Own row Lost (some container_id) rt
      → Own row Lost (some container_id) (set_container row.app_id row.name container_id rt)
  unfolding set_container
  set-Own container_id rt own c (inl e) mine = inl (ap (λ (x : Container). some x.container_id) e)
  set-Own container_id rt own c (inr m) mine = own c m mine

  set-Rows :
      (container_id : Text) (rt : Runtime)
      → RowsAre row.app_id
          (λ a. a.container_id ≡ some container_id)
          (set_container row.app_id row.name container_id rt).db
  unfolding set_container
  set-Rows container_id rt =
      RowsAre-update_app row.app_id (to_container container_id)
        (record { same_id = λ a. refl; same_name = λ a. refl; same_port = λ a. refl })
        (λ a. a.container_id ≡ some container_id) rt.db (λ a m e. refl)

  -- What a launch may lose of the containers that ran, and what podman does not do.
  pub record Loses (launch : Launch) (rt : Runtime) : Type 0 where
    pub old :
        launch.stale_removed ≡ false
        → (message : Text) → launch.run_container ≡ err message
        → (c : Container) → Elem c rt.containers
        → c.app_name ≡ row.name
        → Lost c
    pub left :
        (message : Text)
        → launch.run_container ≡ err message
        → (c : Container) → launch.left_running ≡ some c.container_id
        → c.app_name ≡ row.name
        → Lost c
    pub stuck :
        (container_id message : Text)
        → launch.run_container ≡ ok container_id
        → launch.wait_for_ready ≡ err message
        → Forgets container_id launch.stop
    pub one_name :
        launch.stale_removed ≡ false
        → (container_id : Text) → launch.run_container ≡ ok container_id
        → (c : Container) → Elem c rt.containers
        → c.app_name ≢ row.name

  pub start-IsTracked :
      (launch : Launch) (rt : Runtime)
      → IsClear row Lost rt
      → Loses launch rt
      → IsTrackedBut Lost (start row.app_id row.name launch rt).0
  unfolding start
  start-IsTracked launch rt k loses = by_run launch.run_container refl
    where
      cleared : Runtime
      cleared = remove_stale launch.stale_removed row.name rt

      by_run :
          (o : Outcome Text Text)
          → launch.run_container ≡ o
          → IsTrackedBut Lost
              (elim o as (λ _. Runtime × Option Text) [
                | err message ↦
                    record_failure row.app_id message none
                      (leave_running launch.left_running row.name cleared)
                | ok container_id ↦
                    finish row.app_id container_id launch
                      (set_container row.app_id row.name container_id cleared)
              ]).0
      by_run (err message) e =
          fail-IsTracked row Lost message none (leave_running launch.left_running row.name cleared)
            (left-IsClear launch.left_running cleared (stale-IsClear launch.stale_removed rt k))
            (left-Own launch.left_running cleared (loses.left message e) (
              stale-Own none launch.stale_removed rt
                (λ kept c m mine. inr (loses.old kept message e c m mine))))
      by_run (ok container_id) e =
          finish-IsTracked container_id launch
            (set_container row.app_id row.name container_id cleared)
            (set-IsClear container_id cleared (stale-IsClear launch.stale_removed rt k))
            (set-Own container_id cleared (
              stale-Own (some container_id) launch.stale_removed rt
                (λ kept c m mine. absurd (loses.one_name kept container_id e c m mine))))
            (set-Rows container_id cleared) (λ message f. loses.stuck container_id message e f)
