-- ===== src/Replication/Orchestrator/Links.antt =====
-- The index of waiting entries by the parents that they name.
use record_node.Prelude.{
  Text, text_eq, text_eq_iff, ◌≡◌, true, false, ◌&&◌, ◌||◌, not, List, [], ◌∷◌, arith,
}
use record_node.Dict
use record_node.Dict.{Dict, get-set, get-delete}
use record_node.TextSet
use record_node.TextSet.{has-add, has-delete, has-nil, has-cons}
use record_node.Replication.Orchestrator.{children_of, link, unlink_one, unlink, is_nil}

pub has-link :
    (hash : Text) (ps : List Text) (children : Dict (List Text)) (p h : Text)
    → TextSet.has h (children_of p (link hash ps children))
      ≡ ((text_eq hash h && TextSet.has p ps) || TextSet.has h (children_of p children))
unfolding link children_of
has-link hash [] children p h = ground (arith, has-nil p)
has-link hash (q ∷ ps) children p h = ground (
  arith,
  has-link hash ps (Dict.set q (TextSet.add hash (children_of q children)) children) p h,
  get-set q p (TextSet.add hash (children_of q children)) children,
  has-add hash h (children_of q children),
  has-cons p q ps,
  text_eq_iff q p,
)

has-is_nil : (s : List Text) (h : Text) → is_nil s ≡ true → TextSet.has h s ≡ false
has-is_nil [] h n = has-nil h
has-is_nil (k ∷ s) h n = absurd (cc)

has-unlink_one :
    (hash q : Text) (children : Dict (List Text)) (p h : Text)
    → TextSet.has h (children_of p (unlink_one hash q children))
      ≡ (not (text_eq hash h && text_eq q p) && TextSet.has h (children_of p children))
unfolding unlink_one children_of
has-unlink_one hash q children p h =
    let siblings = TextSet.delete hash (children_of q children) in
    ground (
      arith,
      get-set q p siblings children,
      get-delete q p children,
      has-delete hash h (children_of q children),
      has-is_nil siblings h,
      has-nil h,
      text_eq_iff q p,
    )

pub has-unlink :
    (hash : Text) (ps : List Text) (children : Dict (List Text)) (p h : Text)
    → TextSet.has h (children_of p (unlink hash ps children))
      ≡ (not (text_eq hash h && TextSet.has p ps) && TextSet.has h (children_of p children))
unfolding unlink
has-unlink hash [] children p h = ground (arith, has-nil p)
has-unlink hash (q ∷ ps) children p h = ground (
  arith,
  has-unlink hash ps (unlink_one hash q children) p h,
  has-unlink_one hash q children p h,
  has-cons p q ps,
)
