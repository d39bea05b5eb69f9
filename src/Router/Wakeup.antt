-- ===== src/Router/Wakeup.antt =====
-- When `Router::write` wakes the reader.
use shm_ipc.Base.{ℕ, ◌+◌, ◌≡◌, ◌≢◌, ◌↔◌, true, Option, some, List, arith, if◌then◌else◌, ◌==◌}
use shm_ipc.Base.Outcome.{Outcome, returns}
use shm_ipc.Channel
use shm_ipc.Channel.{Channel, WriteResult, wrote, again}
use shm_ipc.Router.{
  Router, RouterHandler, find, write, mark_interrupted, flag_polling, flag_interrupted,
}

-- A call of `write` that the channel accepts wakes the reader exactly if the reader has announced
-- that it is polling; then the announcement is marked as interrupted, so that the next accepted
-- write does not wake it again. Otherwise `consumer_state` stays as it is.
pub write-wakes :
    (interrupt : Outcome (Unit {0})) (r : Router) (id size n : ℕ) (bytes : Option (List ℕ))
    (ch : Channel) {h : RouterHandler}
    → find id r.handlers ≡ some h
    → Channel.write r.write_channel id size bytes ≡ (ch, returns (wrote n))
    → let (r', result, woken) = write interrupt r id size bytes in
      ((woken ≡ true) ↔ (ch.consumer_state ≡ flag_polling))
      × (r'.write_channel.consumer_state ≡ (
          if ch.consumer_state == flag_polling
          then flag_polling + flag_interrupted
          else ch.consumer_state))
      × (r'.write_channel.consumer_state ≢ flag_polling)
      × (r'.write_channel.write_offset ≡ ch.write_offset)
unfolding write mark_interrupted
write-wakes interrupt r id size n bytes ch e w = ground arith
