-- ===== src/Db/Peers/Writes.antt =====
-- What each statement about a peer does to the rows of `peer_info`.
use armiarma.Base.{◌≡◌, refl, some, String, true, str_eq, if◌then◌else◌}
use armiarma.Base.Int.{ℤ}
use armiarma.Models.HostInfo.{HostInfo, PeerInfo}
use armiarma.Models.ConnAttempt.{
  ConnectionAttempt, AttemptStatus, positive_attempt, negative_attempt,
}
use armiarma.Utils.UserAgent.{NetworkType, ClientType}
use armiarma.Db.Sql.{Database, IsLawful, key_of, row_after, is_typed, is_plain, are_exact, is_exact}
use armiarma.Db.Tables.PeerInfo.{
  upsert_host_info, statement_by, update_by_status, update_last_activity_timestamp,
}
use armiarma.Db.Tables.{peer_info_table}

peer_info-IsPlain : is_plain peer_info_table ≡ true
unfolding is_plain are_exact is_exact
peer_info-IsPlain = refl

attempt-key :
    (F : Type 0) (st : AttemptStatus) (a : ConnectionAttempt)
    → key_of {F = F} (update_by_status st a) ≡ some a.remote_peer
unfolding key_of
attempt-key F positive_attempt a = refl
attempt-key F negative_attempt a = refl

attempt-select :
    (F : Type 0) (d : Database F) (st : AttemptStatus) (a : ConnectionAttempt) (s : d.State)
    (k : String)
    → IsLawful d
    → is_typed d.accepts (update_by_status {F = F} st a) ≡ true
    → d.select (d.execute (update_by_status st a) s) "peer_info" k ≡ (
        if str_eq a.remote_peer k
        then row_after (update_by_status st a) (d.select s "peer_info" k)
        else d.select s "peer_info" k)
attempt-select F d positive_attempt a s k law time =
    law.select-execute _ a.remote_peer s "peer_info" k peer_info-IsPlain time
      (attempt-key F positive_attempt a)
attempt-select F d negative_attempt a s k law time =
    law.select-execute _ a.remote_peer s "peer_info" k peer_info-IsPlain time
      (attempt-key F negative_attempt a)

module _ {F : Type 0} {d : Database F} (law : IsLawful d) where
  pub select-upsert_host_info :
      {A : Type 0} (network : NetworkType → String) (h : HostInfo A) (s : d.State) (k : String)
      → is_typed d.accepts (upsert_host_info {F = F} network h) ≡ true
      → d.select (d.execute (upsert_host_info network h) s) "peer_info" k ≡ (
          if str_eq h.id k
          then row_after (upsert_host_info network h) (d.select s "peer_info" k)
          else d.select s "peer_info" k)
  unfolding upsert_host_info key_of
  select-upsert_host_info network h s k port =
      law.select-execute _ h.id s "peer_info" k peer_info-IsPlain port refl

  pub select-statement_by :
      (c : ClientType) (p : PeerInfo) (s : d.State) (k : String)
      → is_typed d.accepts (statement_by {F = F} c p) ≡ true
      → d.select (d.execute (statement_by c p) s) "peer_info" k ≡ (
          if str_eq p.remote_peer k
          then row_after (statement_by c p) (d.select s "peer_info" k)
          else d.select s "peer_info" k)
  unfolding key_of
  select-statement_by c p s k latency =
      law.select-execute _ p.remote_peer s "peer_info" k peer_info-IsPlain latency refl

  pub select-update_by_status :
      (st : AttemptStatus) (a : ConnectionAttempt) (s : d.State) (k : String)
      → is_typed d.accepts (update_by_status {F = F} st a) ≡ true
      → d.select (d.execute (update_by_status st a) s) "peer_info" k ≡ (
          if str_eq a.remote_peer k
          then row_after (update_by_status st a) (d.select s "peer_info" k)
          else d.select s "peer_info" k)
  select-update_by_status st a s k time = attempt-select F d st a s k law time

  pub select-update_last_activity_timestamp :
      (id : String) (t : ℤ) (s : d.State) (k : String)
      → is_typed d.accepts (update_last_activity_timestamp {F = F} id t) ≡ true
      → d.select (d.execute (update_last_activity_timestamp id t) s) "peer_info" k ≡ (
          if str_eq id k
          then row_after (update_last_activity_timestamp id t) (d.select s "peer_info" k)
          else d.select s "peer_info" k)
  unfolding update_last_activity_timestamp key_of
  select-update_last_activity_timestamp id t s k time =
      law.select-execute _ id s "peer_info" k peer_info-IsPlain time refl
