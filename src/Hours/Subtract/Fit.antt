-- ===== src/Hours/Subtract/Fit.antt =====
-- Which windows fit into what `subtract_busy` leaves, and the order of what it leaves.
use skulid.Base.{ℕ, ◌≡◌, ◌≤◌, ◌<◌, refl, ◌&&◌, ◌||◌, List, [], ◌∷◌, ◌++◌, arith, All}
use skulid.Hours.Window.{Window, within_any, clear, Ordered}
use skulid.Hours.Subtract.{cut, cut_all, carve, subtract_busy}

within_any-append :
    (w : Window) (xs ys : List Window)
    → within_any w (xs ++ ys) ≡ (within_any w xs || within_any w ys)
within_any-append w [] ys = refl
within_any-append w (x ∷ xs) ys = ground (arith, within_any-append w xs ys)

within_any-cut :
    (w s b : Window)
    → w.start < w.end
    → within_any w (cut s b) ≡ (within_any w (s ∷ []) && clear w (b ∷ []))
unfolding cut
within_any-cut w s b h = ground arith

within_any-cut_all :
    (w : Window) (ss : List Window) (b : Window)
    → w.start < w.end
    → within_any w (cut_all ss b) ≡ (within_any w ss && clear w (b ∷ []))
unfolding cut_all
within_any-cut_all w [] b h = refl
within_any-cut_all w (s ∷ ss) b h = ground (
  arith,
  within_any-append w (cut s b) (cut_all ss b),
  within_any-cut w s b h,
  within_any-cut_all w ss b h,
)

within_any-carve :
    (w : Window) (ss busy : List Window)
    → w.start < w.end
    → within_any w (carve ss busy) ≡ (within_any w ss && clear w busy)
unfolding carve
within_any-carve w ss [] h = ground arith
within_any-carve w [] (b ∷ bs) h = refl
within_any-carve w (s ∷ ss) (b ∷ bs) h =
    ground (arith, within_any-carve w (cut_all (s ∷ ss) b) bs h, within_any-cut_all w (s ∷ ss) b h)

-- A window that is not empty fits into a window that `SubtractBusy` returns exactly when it fits
-- into an available window and overlaps no busy one.
pub within_any-subtract_busy :
    (w : Window) (avail busy : List Window)
    → w.start < w.end
    → within_any w (subtract_busy avail busy) ≡ (within_any w avail && clear w busy)
unfolding subtract_busy
within_any-subtract_busy w [] busy h = refl
within_any-subtract_busy w (a ∷ avail) busy h = ground (
  arith,
  within_any-append w (carve (a ∷ []) busy) (subtract_busy avail busy),
  within_any-carve w (a ∷ []) busy h,
  within_any-subtract_busy w avail busy h,
)

-- An ordered chain between two bounds.
abbrev Chain : ℕ → ℕ → List Window → Type 0
Chain lo hi [] = lo ≤ hi
Chain lo hi (w ∷ ws) = (lo ≤ w.start) × (w.start ≤ w.end) × Chain w.end hi ws

abbrev pub IsUpright : Window → Type 0
IsUpright w = w.start ≤ w.end

Chain-append :
    (lo mid hi : ℕ) (xs ys : List Window)
    → Chain lo mid xs
    → Chain mid hi ys
    → Chain lo hi (xs ++ ys)
Chain-append lo mid hi [] [] c d = omega arith
Chain-append lo mid hi [] (y ∷ ys) c d = (omega arith, d.1, d.2)
Chain-append lo mid hi (x ∷ xs) ys c d = (c.0, c.1, Chain-append x.end mid hi xs ys c.2 d)

cut-Chain : (s b : Window) → IsUpright b → s.start ≤ s.end → Chain s.start s.end (cut s b)
unfolding cut
cut-Chain s b u h = ground arith

cut_all-Chain :
    (lo hi : ℕ) (ss : List Window) (b : Window)
    → IsUpright b
    → Chain lo hi ss
    → Chain lo hi (cut_all ss b)
unfolding cut_all
cut_all-Chain lo hi [] b u c = c
cut_all-Chain lo hi (s ∷ ss) b u c =
    Chain-append lo s.end hi (cut s b) (cut_all ss b)
      (Chain-append lo s.start s.end [] (cut s b) c.0 (cut-Chain s b u c.1))
      (cut_all-Chain s.end hi ss b u c.2)

carve-Chain :
    (lo hi : ℕ) (ss busy : List Window)
    → All IsUpright busy
    → Chain lo hi ss
    → Chain lo hi (carve ss busy)
unfolding carve
carve-Chain lo hi ss [] u c = c
carve-Chain lo hi [] (b ∷ bs) u c = c
carve-Chain lo hi (s ∷ ss) (b ∷ bs) u c =
    carve-Chain lo hi (cut_all (s ∷ ss) b) bs u.1 (cut_all-Chain lo hi (s ∷ ss) b u.0 c)

pub Ordered-mono : {m n : ℕ} (ws : List Window) → m ≤ n → Ordered n ws → Ordered m ws
Ordered-mono [] h o = tt
Ordered-mono (w ∷ ws) h o = (omega arith, o.1, o.2)

Chain-Ordered :
    (lo hi : ℕ) (xs ys : List Window) → Chain lo hi xs → Ordered hi ys → Ordered lo (xs ++ ys)
Chain-Ordered lo hi [] ys c o = Ordered-mono {n = hi} ys c o
Chain-Ordered lo hi (x ∷ xs) ys c o = (c.0, c.1, Chain-Ordered x.end hi xs ys c.2 o)

-- Where no busy window is inverted, what `SubtractBusy` leaves of ordered windows is ordered.
pub subtract_busy-Ordered :
    (n : ℕ) (avail busy : List Window)
    → All IsUpright busy
    → Ordered n avail
    → Ordered n (subtract_busy avail busy)
unfolding subtract_busy
subtract_busy-Ordered n [] busy u o = tt
subtract_busy-Ordered n (a ∷ avail) busy u o =
    Chain-Ordered n a.end (carve (a ∷ []) busy) (subtract_busy avail busy)
      (carve-Chain n a.end (a ∷ []) busy u (o.0, o.1, omega arith))
      (subtract_busy-Ordered a.end avail busy u o.2)
