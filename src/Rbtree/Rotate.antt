-- ===== src/Rbtree/Rotate.antt =====
-- `rb_left_rotate` and `rb_right_rotate` of src/rbtree.c. The parent's pointer, or the root, is
-- set by whoever puts the result back; a rotation about a missing child follows a null pointer.
use javalette.Prelude.{Option, none, some}
use javalette.Rbtree.{Node, node}

module _ {ℓ} {K : Type ℓ} where
  unfoldable pub left_rotate : Node K → Option (Node K)
  left_rotate (node c a x (node d b y e)) = some (node d (node c a x b) y e)
  left_rotate _ = none

  unfoldable pub right_rotate : Node K → Option (Node K)
  right_rotate (node c (node d a x b) y e) = some (node d a x (node c b y e))
  right_rotate _ = none
