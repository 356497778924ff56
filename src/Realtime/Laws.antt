-- ===== src/Realtime/Laws.antt =====
-- What holds of the channels of internal/realtime/hub.go.
use mathlib.Core.Path.{subst}
use logthing.Prelude.{
  ◌≡◌, refl, sym, ap, Bool, true, false, List, [], ◌∷◌, ◌++◌, ltb, length, if◌then◌else◌,
}
use logthing.Model.{Message}
use logthing.Realtime.{offer, Use, send, take_first, taken, left, sent}

-- The one list is the other with elements left out.
pub data Sublist : List Message → List Message → Type 0 where
  nil : Sublist [] []
  both : (m : Message) {xs ys : List Message} → Sublist xs ys → Sublist (m ∷ xs) (m ∷ ys)
  drop_one : (m : Message) {xs ys : List Message} → Sublist xs ys → Sublist xs (m ∷ ys)

Sublist-refl : (xs : List Message) → Sublist xs xs
Sublist-refl [] = nil
Sublist-refl (x ∷ xs) = both x (Sublist-refl xs)

Sublist-insert :
    (m : Message) (xs ys zs : List Message) → Sublist xs (ys ++ zs) → Sublist xs (ys ++ m ∷ zs)
Sublist-insert m xs [] zs h = drop_one m h
Sublist-insert m xs (y ∷ ys) zs (both _ h) = both y (Sublist-insert m _ ys zs h)
Sublist-insert m xs (y ∷ ys) zs (drop_one _ h) = drop_one y (Sublist-insert m xs ys zs h)

append_assoc :
    (xs : List Message) (m : Message) (zs : List Message) → (xs ++ m ∷ []) ++ zs ≡ xs ++ m ∷ zs
append_assoc [] m zs = refl
append_assoc (x ∷ xs) m zs = ap (◌∷◌ x) (append_assoc xs m zs)

Sublist-offer :
    (m : Message) (b xs zs : List Message) → Sublist xs (offer m b ++ zs) → Sublist xs (b ++ m ∷ zs)
unfolding offer
Sublist-offer m b xs zs h = by_room (ltb (length b) 64) h
  where
    by_room :
        (r : Bool) → Sublist xs ((if r then b ++ m ∷ [] else b) ++ zs) → Sublist xs (b ++ m ∷ zs)
    by_room true h = subst (Sublist xs) (append_assoc b m zs) h
    by_room false h = Sublist-insert m xs b zs h

-- However a channel is used, what its subscriber gets, followed by what is left in the buffer, is
-- what was in the buffer followed by what was sent, with some messages dropped: nothing comes out of
-- order, twice, or from elsewhere.
pub taken-Sublist :
    (uses : List Use) (buffer : List Message)
    → Sublist (taken uses buffer ++ left uses buffer) (buffer ++ sent uses)
unfolding taken left
taken-Sublist [] buffer = subst (Sublist buffer) (sym (append_nil buffer)) (Sublist-refl buffer)
  where
    append_nil : (xs : List Message) → xs ++ [] ≡ xs
    append_nil [] = refl
    append_nil (x ∷ xs) = ap (◌∷◌ x) (append_nil xs)
taken-Sublist (send m ∷ uses) buffer =
    Sublist-offer m buffer _ (sent uses) (taken-Sublist uses (offer m buffer))
taken-Sublist (take_first ∷ uses) [] = taken-Sublist uses []
taken-Sublist (take_first ∷ uses) (m ∷ buffer) = both m (taken-Sublist uses buffer)
