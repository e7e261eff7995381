-- ===== src/Worker/Sync/Pages.antt =====
-- internal/calendar/client.go: the pages of `IncrementalSync`.
use skulid.Base.{
  ℕ, zero, suc, ◌≡◌, ◌<◌, refl, false, List, [], ◌∷◌, ◌++◌, Text, is_nil, length, ap, sym, arith,
}
use mathlib.Core.List.{append_assoc}
use skulid.Sync.Event.{Event}
use skulid.Worker.Sync.{Page, page, synced, read_pages}

-- Google answers the request for a page token with the first of some pages that each name the token
-- of the next one, the request for that token with the second, and so on; the last page names none,
-- and has the token of the next sync.
abbrev pub Serves : (Text → Page) → Text → List (List Event × Text) → List Event → Text → Type 0
Serves page_of page_token [] last next = page_of page_token ≡ page last [] next
Serves page_of page_token ((items, next_page) ∷ before) last next =
    (page_of page_token ≡ page items next_page [])
    × (is_nil next_page ≡ false)
    × Serves page_of next_page before last next

abbrev pub items_of : List (List Event × Text) → List Event
items_of [] = []
items_of ((items, next_page) ∷ before) = items ++ items_of before

read_pages-from :
    (rounds : ℕ) (page_of : Text → Page) (page_token : Text) (before : List (List Event × Text))
    (last : List Event) (next : Text)
    → length before < rounds
    → Serves page_of page_token before last next
    → read_pages rounds page_of page_token ≡ synced (items_of before ++ last) next
unfolding read_pages
read_pages-from zero page_of page_token before last next enough h = absurd (omega arith)
read_pages-from (suc rounds) page_of page_token [] last next enough h = rw h refl
read_pages-from (suc rounds) page_of page_token ((items, next_page) ∷ before) last next enough h =
    rw (h.0, h.1, read_pages-from rounds page_of next_page before last next (omega arith) h.2)
      (ap (λ evs. synced evs next) (sym (append_assoc items (items_of before) last)))

-- Where Google serves the pages of a sync one by one, each under the token that the page before it
-- names and the first under none, only the last page has a sync token, and there are no more pages
-- than rounds, the sync returns the events of all pages in their order, and that token.
pub read_pages-linked :
    (rounds : ℕ) (page_of : Text → Page) (before : List (List Event × Text)) (last : List Event)
    (next : Text)
    → length before < rounds
    → Serves page_of [] before last next
    → read_pages rounds page_of [] ≡ synced (items_of before ++ last) next
read_pages-linked rounds page_of before last next enough h =
    read_pages-from rounds page_of [] before last next enough h
