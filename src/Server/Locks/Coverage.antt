-- ===== src/Server/Locks/Coverage.antt =====
-- Which bytes of a file a holder has locked: the view of a list of locks that forgets how the
-- ranges are split and ordered.
use fabric_fs.Prelude.{
  ℕ, ◌≤◌, ◌≡◌, Bool, ◌&&◌, ◌||◌, List, leb, ◌==◌, u64_max, any, any-append, All, ◌++◌,
}
use fabric_fs.Server.Locks.{BackendLock}

-- The owner, type, process and handle that locks merge under.
pub record Holder : Type 0 where
  pub owner : ℕ
  pub typ : ℕ
  pub pid : ℕ
  pub handle : ℕ

unfoldable pub held_by : Holder → BackendLock → Bool
held_by h lock =
    h.owner == lock.owner && h.typ == lock.typ && h.pid == lock.pid && h.handle == lock.handle

unfoldable pub in_range : ℕ → ℕ → ℕ → Bool
in_range start end byte = leb start byte && leb byte end

unfoldable pub covers : Holder → ℕ → BackendLock → Bool
unfolding held_by in_range
covers h byte lock = held_by h lock && in_range lock.start lock.end byte

unfoldable pub covered : Holder → ℕ → List BackendLock → Bool
unfolding any
covered h byte locks = any (covers h byte) locks

-- The ranges that requests leave in a table.
pub record IsRange (lock : BackendLock) : Type 0 where
  pub ordered : lock.start ≤ lock.end
  pub fits : lock.end ≤ u64_max

abbrev pub AllRanges : List BackendLock → Type 0
AllRanges = All IsRange

pub covered-append :
    (h : Holder) (byte : ℕ) (xs ys : List BackendLock)
    → covered h byte (xs ++ ys) ≡ (covered h byte xs || covered h byte ys)
unfolding covered
covered-append h byte xs ys = any-append (covers h byte) xs ys
