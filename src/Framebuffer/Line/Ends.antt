-- ===== src/Framebuffer/Line/Ends.antt =====
-- The line stays between its ends.
use knut_os.Base.{◌⊎◌}
use knut_os.Base.All.{All}
use knut_os.Base.Int.{ℤ, Le}
use knut_os.Framebuffer.Line.{Point}

-- `a` and `b` are the ends, in one order or the other.
abbrev pub Within : ℤ → ℤ → ℤ → Type 0
Within a b q = (Le a q × Le q b) ⊎ (Le b q × Le q a)

abbrev pub BetweenEnds : Point → Point → Point → Type 0
BetweenEnds start stop q = Within start.x stop.x q.x × Within start.y stop.y q.y
