-- ===== src/Sender/Threads.antt =====
-- src/libs/Sender.cpp: `sendLoop` as a thread beside the callers of `receiveRtpPacket` and the
-- destructor.
use payloader.Base.{
  ℕ, List, [], ◌∷◌, Bool, true, false, Option, none, some, if◌then◌else◌, ◌≡◌, ◌≢◌, Bytes, ok,
}
use payloader.Sender.{DataPacket, Sender, receive_rtp_packet, send_data}

-- Where the thread stands: at `while (sending_)`, at the lock, in the inner `while` with the lock
-- held, in `cond_.wait`, behind a notification, and behind a `return` or the end of the loop.
pub data Phase : Type 0 where
  outer acquire inner waiting woken returned : Phase

-- The inner loop with the lock held: it waits on an empty queue, or sends the front and pops it.
unfoldable pub send_front : List DataPacket → Sender → Option (Phase × Sender)
send_front [] s = some (waiting, s)
send_front (p ∷ rest) s = some (outer, record (send_data p s) { send_queue = rest })

-- The next step of the thread; `none` if it cannot take one by itself.
unfoldable pub send_loop : Phase → Sender → Option (Phase × Sender)
unfolding send_front
send_loop outer s = some ((if s.sending then acquire else returned), s)
send_loop acquire s = some (inner, s)
send_loop inner s = send_front s.send_queue s
send_loop waiting s = none
send_loop woken s = some ((if s.sending then inner else returned), s)
send_loop returned s = none

-- `notify_one` wakes the thread if it waits.
unfoldable pub notify : Bool → Phase → Phase
notify true waiting = woken
notify _ phase = phase

pub record World : Type 0 where
  pub phase : Phase
  pub sender : Sender

-- `spurious` says whether a wait may end without a notification, as Boost allows.
-- A call of `receiveRtpPacket` holds the lock, so it runs while the thread does not.
pub data Step (spurious : Bool) (w : World) : World → Type 0 where
  thread :
      (phase : Phase) (s : Sender)
      → send_loop w.phase w.sender ≡ some (phase, s)
      → Step spurious w (record { phase = phase; sender = s })
  call :
      (garbage in_buff : Bytes) (buff_size : ℕ) (s : Sender) (notified : Bool)
      → w.phase ≢ inner
      → receive_rtp_packet garbage in_buff buff_size w.sender ≡ ok (s, notified)
      → Step spurious w (record { phase = notify notified w.phase; sender = s })
  wake :
      spurious ≡ true
      → w.phase ≡ waiting
      → Step spurious w (record { phase = woken; sender = w.sender })
  destroy :
      Step spurious w (record { phase = w.phase; sender = record w.sender { sending = false } })

pub data Reach (spurious : Bool) (w : World) : World → Type 0 where
  here : Reach spurious w w
  next : {u v : World} → Reach spurious w u → Step spurious u v → Reach spurious w v
