-- ===== src/Cluster/Request/Errors.antt =====
-- The error paths of packrequest, and what each does with the message's memory.
use testcluster.Prelude.{
  ℕ, ◌^◌, ◌<◌, ◌≡◌, ◌≢◌, refl, ◌∙◌, ◌⊎◌, Bool, true, false, some, none, List, [], ◌∷◌, length, ltb,
  ◌||◌, arith, ==_of_ne,
}
use testcluster.Prelude.Int.{ℤ, pos, negsuc, to_u32, of_i32, is_positive_i32, to_u32-lt}
use testcluster.Cluster.Wire.{Bytes}
use testcluster.Cluster.Lua.{
  Value, nil, light_userdata, integer, LuaApi, invalid_request_message, invalid_request_session,
  name_not_a_string, name_too_long, raised, Heap, check_integer_eq,
}
use testcluster.Cluster.Request.{packrequest, packreq_string, is_number}
use testcluster.Cluster.Request.Whole.{
  freed, skynet_free_eq, request_args, IsRequest, packrequest_string_eq,
}

-- A message that is no userdata, or NULL, is refused before anything is read or freed.
pub no_message :
    (lua : LuaApi) (value session size : Value) (is_push : Bool) (h : Heap)
    → (packrequest lua (value ∷ session ∷ nil ∷ size ∷ []) is_push h
        ≡ (raised invalid_request_message, h))
      × (packrequest lua (value ∷ session ∷ light_userdata 0 ∷ size ∷ []) is_push h
          ≡ (raised invalid_request_message, h))
unfolding packrequest
no_message lua value session size is_push h = (refl, refl)

-- An integer that is not positive.
abbrev pub IsNonpositive : ℤ → Type 0
IsNonpositive (pos n) = n ≡ 0
IsNonpositive (negsuc n) = Unit

-- The test `session <= 0` of the `int` that a pattern stands for.
not_positive : (w : ℕ) → w < 2 ^ 32 → IsNonpositive (of_i32 w) → is_positive_i32 w ≡ false
unfolding of_i32 is_positive_i32
not_positive w lt h = ground arith

module _ (lua : LuaApi) (value : Value) (is_push : Bool) (h : Heap) (msg : ℕ) (content : Bytes)
    (not_null : msg ≢ 0) (allocated : h.block msg ≡ some content) where
  -- A session that is not positive as an `int` frees the message and raises.
  pub bad_session :
      (size session : ℤ)
      → IsNonpositive (of_i32 (to_u32 session))
      → packrequest lua (value ∷ integer session ∷ light_userdata msg ∷ integer size ∷ []) is_push h
        ≡ (raised (invalid_request_session (of_i32 (to_u32 session))), freed h msg)
  unfolding packrequest
  bad_session size session bad =
      let args : List Value = value ∷ integer session ∷ light_userdata msg ∷ integer size ∷ [] in
      rw (==_of_ne msg 0 not_null) (
        rw (check_integer_eq lua args 4 h size refl, check_integer_eq lua args 2 h session refl)
          (rw (not_positive (to_u32 session) (to_u32-lt session) bad)
            (rw (skynet_free_eq h msg content allocated))))

outside :
    (name : Bytes)
    → (length name ≡ 0) ⊎ (255 < length name)
    → (ltb (length name) 1 || ltb 255 (length name)) ≡ true
outside name out_of_range = ground arith

module _ (lua : LuaApi) (value : Value) (is_push : Bool) {h : Heap} {session msg : ℕ}
    {content : Bytes} (r : IsRequest h session msg content) where
  -- An address that is neither a number nor a string frees the message and raises.
  pub bad_address :
      is_number value ≡ false
      → lua.to_lstring value ≡ none
      → packrequest lua (request_args value session msg content) is_push h
        ≡ (raised name_not_a_string, freed h msg)
  unfolding packreq_string
  bad_address other no_name =
      packrequest_string_eq lua value is_push r other
      ∙ rw (no_name, packreq_string) (rw (skynet_free_eq h msg content r.allocated))

  -- A name that is empty or longer than 255 bytes frees the message and raises.
  pub bad_name :
      (name : Bytes)
      → is_number value ≡ false
      → lua.to_lstring value ≡ some name
      → (length name ≡ 0) ⊎ (255 < length name)
      → packrequest lua (request_args value session msg content) is_push h
        ≡ (raised (name_too_long name), freed h msg)
  unfolding packreq_string
  bad_name name other is_name out_of_range =
      packrequest_string_eq lua value is_push r other
      ∙ rw (is_name, packreq_string)
          (rw (outside name out_of_range) (rw (skynet_free_eq h msg content r.allocated)))
