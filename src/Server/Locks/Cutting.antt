-- ===== src/Server/Locks/Cutting.antt =====
-- `unlock_owned_range` on the locks of one file: the owner loses the bytes of the range, and
-- nothing else changes.
use fabric_fs.Prelude.{ℕ, ◌≡◌, Bool, ◌&&◌, not, List, [], ◌∷◌, arith, ◌==◌, any-append, All-append}
use fabric_fs.Server.Locks.{BackendLock, cut, cut_all}
use fabric_fs.Server.Locks.Coverage.{Holder, covered, covers, in_range, IsRange, AllRanges}

-- The bytes that an unlock takes from a holder.
unfoldable pub taken : Holder → ℕ → ℕ → ℕ → ℕ → Bool
unfolding in_range
taken h owner start end byte = h.owner == owner && in_range start end byte

covered-cut :
    (h : Holder) (b owner start end : ℕ) (lock : BackendLock)
    → covered h b (cut owner start end lock) ≡ (not (taken h owner start end b) && covers h b lock)
unfolding cut covered covers taken
covered-cut h b owner start end lock = ground arith

pub covered-cut_all :
    (h : Holder) (b owner start end : ℕ) (locks : List BackendLock)
    → covered h b (cut_all owner start end locks)
      ≡ (not (taken h owner start end b) && covered h b locks)
unfolding cut_all covered
covered-cut_all h b owner start end [] = ground arith
covered-cut_all h b owner start end (lock ∷ rest) = ground (
  arith,
  any-append (covers h b) (cut owner start end lock) (cut_all owner start end rest),
  covered-cut h b owner start end lock,
  covered-cut_all h b owner start end rest,
)

cut-AllRanges :
    (owner start end : ℕ) (lock : BackendLock) → IsRange lock → AllRanges (cut owner start end lock)
unfolding cut
cut-AllRanges owner start end lock r = ground arith

pub cut_all-AllRanges :
    (owner start end : ℕ) (locks : List BackendLock)
    → AllRanges locks
    → AllRanges (cut_all owner start end locks)
unfolding cut_all
cut_all-AllRanges owner start end [] r = r
cut_all-AllRanges owner start end (lock ∷ rest) r =
    All-append IsRange (cut owner start end lock) (cut_all owner start end rest)
      (cut-AllRanges owner start end lock r.0) (cut_all-AllRanges owner start end rest r.1)
