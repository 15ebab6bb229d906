-- ===== src/Objects/Messages.antt =====
-- src/core/cmpmsgs.h and src/core/cmpmsgs.cpp: the callbacks for messages between components. `C`
-- is the type of the callbacks, and the key of the map a message and a class identifier.
use packaged_task.Base.{
  ℕ, List, [], ◌∷◌, Option, none, some, Bool, true, false, ◌==◌, ◌&&◌, if◌then◌else◌, ◌≡◌, refl,
  arith,
}

-- `msg_id`
abbrev pub msg_undefined : ℕ
msg_undefined = 0

abbrev pub msg_did_add_component : ℕ
msg_did_add_component = 1

abbrev pub msg_transform_changed : ℕ
msg_transform_changed = 2

pub record KeyType : Type 0 where
  pub first : ℕ
  pub second : ℕ

-- `key_type::operator==`
abbrev pub key_eq : KeyType → KeyType → Bool
key_eq a b = a.first == b.first && a.second == b.second

abbrev pub CmpMsgsTable {ℓ} : Type ℓ → Type ℓ
CmpMsgsTable C = List (KeyType × C)

module _ {ℓ} {C : Type ℓ} where
  unfoldable pub find_callback : KeyType → CmpMsgsTable C → Option C
  find_callback k [] = none
  find_callback k ((j, c) ∷ t) = if key_eq j k then some c else find_callback k t

  unfoldable pub assign_callback : KeyType → C → CmpMsgsTable C → CmpMsgsTable C
  assign_callback k c [] = (k, c) ∷ []
  assign_callback k c ((j, d) ∷ t) =
      if key_eq j k then (k, c) ∷ t else (j, d) ∷ assign_callback k c t

  unfoldable pub register_message_callback : CmpMsgsTable C → ℕ → ℕ → C → CmpMsgsTable C
  register_message_callback t mid classid fnct =
      assign_callback (record { first = mid; second = classid }) fnct t

  unfoldable pub has_message_callback : CmpMsgsTable C → ℕ → ℕ → Bool
  has_message_callback t mid classid =
      elim (find_callback (record { first = mid; second = classid }) t) [
        | none ↦ false
        | some c ↦ true
      ]

  -- Which callback `handleMessage` runs: `find` is dereferenced without a test, so `none` is
  -- undefined behaviour.
  unfoldable pub message_callback : CmpMsgsTable C → ℕ → ℕ → Option C
  message_callback t mid classid = find_callback (record { first = mid; second = classid }) t

  find_callback-assign_callback :
      (k j : KeyType) (c : C) (t : CmpMsgsTable C)
      → find_callback j (assign_callback k c t) ≡ (if key_eq k j then some c else find_callback j t)
  unfolding find_callback assign_callback
  find_callback-assign_callback k j c [] = refl
  find_callback-assign_callback k j c ((i, d) ∷ t) =
      ground (arith, find_callback-assign_callback k j c t)

  -- After a registration the message and the class have the new callback, and every other pair of a
  -- message and a class the callback that it had, or none.
  pub message_callback-register_message_callback :
      (t : CmpMsgsTable C) (mid classid : ℕ) (fnct : C) (mid' classid' : ℕ)
      → (message_callback (register_message_callback t mid classid fnct) mid' classid' ≡ (
          if mid == mid' && classid == classid'
          then some fnct
          else message_callback t mid' classid'))
        × (has_message_callback (register_message_callback t mid classid fnct) mid' classid' ≡ (
            if mid == mid' && classid == classid'
            then true
            else has_message_callback t mid' classid'))
  unfolding register_message_callback message_callback has_message_callback
  message_callback-register_message_callback t mid classid fnct mid' classid' =
      let found =
        find_callback-assign_callback (record { first = mid; second = classid })
          (record { first = mid'; second = classid' }) fnct t in
      (found, ground (arith, found))
