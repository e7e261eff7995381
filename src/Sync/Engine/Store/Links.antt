-- ===== src/Sync/Engine/Store/Links.antt =====
-- The links table: a rule and a source event have one row.
use skulid.Base.{
  ℕ, ◌≡◌, refl, true, false, List, [], ◌∷◌, some, none, Option, Text, text_eq_iff, text_eq_refl,
  arith,
}
use skulid.Sync.Engine.Store.{EventLink, has_key, find_link, remove_link, put_link}

-- No two links of a rule have the same source event.
abbrev pub IsKeyed : List EventLink → Type 0
IsKeyed [] = Unit {0}
IsKeyed (l ∷ ls) = (find_link l.rule_id l.source_event_id ls ≡ none) × IsKeyed ls

find_link-remove_none :
    (rule_id id : ℕ) (key : Text) (ls : List EventLink)
    → find_link rule_id key ls ≡ none
    → find_link rule_id key (remove_link id ls) ≡ none
unfolding find_link remove_link
find_link-remove_none rule_id id key [] h = refl
find_link-remove_none rule_id id key (l ∷ ls) h =
    ground (arith, find_link-remove_none rule_id id key ls)

pub remove_link-IsKeyed : (id : ℕ) (ls : List EventLink) → IsKeyed ls → IsKeyed (remove_link id ls)
unfolding remove_link
remove_link-IsKeyed id [] k = tt
remove_link-IsKeyed id (l ∷ ls) k = ground (
  arith,
  remove_link-IsKeyed id ls k.1,
  find_link-remove_none l.rule_id id l.source_event_id ls k.0,
)

find_link-put_none :
    (rule_id : ℕ) (key : Text) (new : EventLink) (ls : List EventLink)
    → has_key rule_id key new ≡ false
    → find_link rule_id key ls ≡ none
    → find_link rule_id key (put_link new ls) ≡ none
unfolding find_link put_link
find_link-put_none rule_id key new [] h e = ground arith
find_link-put_none rule_id key new (l ∷ ls) h e =
    ground (arith, find_link-put_none rule_id key new ls h)

has_key_apart :
    (l new : EventLink)
    → has_key new.rule_id new.source_event_id l ≡ false
    → has_key l.rule_id l.source_event_id new ≡ false
has_key_apart l new h = ground (
  arith,
  text_eq_iff l.source_event_id new.source_event_id,
  text_eq_iff new.source_event_id l.source_event_id,
)

pub put_link-IsKeyed :
    (new : EventLink) (ls : List EventLink) → IsKeyed ls → IsKeyed (put_link new ls)
unfolding put_link find_link
put_link-IsKeyed new [] k = (refl, tt)
put_link-IsKeyed new (l ∷ ls) k = ground (
  arith,
  put_link-IsKeyed new ls k.1,
  has_key_apart l new,
  find_link-put_none l.rule_id l.source_event_id new ls,
)

has_key_sound :
    (rule_id : ℕ) (key : Text) (l : EventLink)
    → has_key rule_id key l ≡ true
    → (l.rule_id ≡ rule_id) × (l.source_event_id ≡ key)
has_key_sound rule_id key l h = ground (arith, text_eq_iff l.source_event_id key)

-- The row that was found is the only one that the key had.
pub find_link-remove_link :
    (rule_id : ℕ) (key : Text) (ls : List EventLink) (l : EventLink)
    → IsKeyed ls
    → find_link rule_id key ls ≡ some l
    → find_link rule_id key (remove_link l.id ls) ≡ none
unfolding find_link remove_link
find_link-remove_link rule_id key [] l k h = ground arith
find_link-remove_link rule_id key (x ∷ ls) l k h = ground (
  arith,
  has_key_sound rule_id key x,
  find_link-remove_link rule_id key ls l k.1,
  find_link-remove_none rule_id l.id key ls,
)

-- The source's etag in the row that was found.
abbrev pub etag_of : Option EventLink → Option Text
etag_of none = none
etag_of (some l) = some l.source_etag

-- After an upsert the key has a row, with the etag of the new one.
pub find_link-put_link :
    (new : EventLink) (ls : List EventLink)
    → etag_of (find_link new.rule_id new.source_event_id (put_link new ls)) ≡ some new.source_etag
unfolding find_link put_link
find_link-put_link new [] = ground (arith, text_eq_refl new.source_event_id)
find_link-put_link new (x ∷ ls) = ground (arith, find_link-put_link new ls)
