-- ===== src/Sockets/Buffer.antt =====
-- The buffer of PaperBridge::Listen in src/integration/paper_bridge.cpp.
use mcx.Prelude.{◌≡◌, refl, false, none, some, [], ◌∷◌, arith, ltb, if◌then◌else◌, length}
use mcx.Prelude.Text.{Text}
use mcx.Prelude.Search.{Without, c_str-Without}
use mcx.Sockets.{is_open, paper_event}

Without-is_open : (bytes : Text) → Without 0 bytes → is_open 0 bytes ≡ false
Without-is_open [] h = refl
Without-is_open (c ∷ bytes) h = ground (arith, h.0, Without-is_open bytes h.1)

-- An event without a zero byte reaches the callback as it was sent where it is shorter than the buffer, and
-- is read past the end of the buffer where it fills it; a longer one is cut by recv to that length.
paper_event-Without :
    (bytes : Text)
    → Without 0 bytes
    → paper_event bytes ≡ (if ltb (length bytes) 1024 then some bytes else none)
unfolding paper_event
paper_event-Without bytes h =
    rw (paper_event, Without-is_open bytes h, c_str-Without bytes h) (ground arith)
