-- ===== src/Cluster/Request/Whole.antt =====
-- packrequest as a whole: what a call returns, and what becomes of the message's memory.
use testcluster.Prelude.{
  ℕ, ◌^◌, ◌≤◌, ◌<◌, ◌≡◌, ◌≢◌, refl, ◌∙◌, Bool, true, false, some, none, List, [], ◌∷◌, length,
  if◌then◌else◌, arith, ==_of_ne,
}
use testcluster.Prelude.Int.{pos, to_u32, is_positive_i32}
use testcluster.Cluster.Wire.{Bytes, multi_part}
use testcluster.Cluster.Lua.{
  Value, light_userdata, string, table, LuaApi, ok, Heap, ◌>>=◌, skynet_free, update,
  check_integer_eq, to_integer_or_zero,
}
use testcluster.Cluster.Unpack.{word}
use testcluster.Cluster.Request.{
  packrequest, packreq_number, packreq_string, finish_request, is_number, next_session, part_count,
}
use testcluster.Cluster.Request.Packets.{
  framed, number_body, string_body, multi_number_body, multi_string_body, packreq_number_single,
  packreq_number_multi, packreq_string_single, packreq_string_multi,
}
use testcluster.Cluster.Request.Parts.{part_frames, packreq_multi_eq}

-- The heap without the block at `p`.
abbrev pub freed : Heap → ℕ → Heap
freed h p = record h { block = update h.block p none }

-- A call's stack: the address, the session, the message and its size.
abbrev pub request_args : Value → ℕ → ℕ → Bytes → List Value
request_args value session msg content =
    value ∷ word session ∷ light_userdata msg ∷ word (length content) ∷ []

-- What a call is given: a session from 1 to INT32_MAX, and a pointer to the message.
pub record IsRequest (h : Heap) (session msg : ℕ) (content : Bytes) : Type 0 where
  pub session_pos : 1 ≤ session
  pub session_lt : session < 2 ^ 31
  pub not_null : msg ≢ 0
  pub allocated : h.block msg ≡ some content
  pub size_lt : length content < 2 ^ 32

pub skynet_free_eq :
    (h : Heap) (p : ℕ) (content : Bytes)
    → h.block p ≡ some content
    → skynet_free p h ≡ (ok tt, freed h p)
unfolding skynet_free
skynet_free_eq h p content e = ground arith

word_of_pos : (n : ℕ) → n < 2 ^ 32 → to_u32 (pos n) ≡ n
unfolding to_u32
word_of_pos n lt = omega arith

is_positive : (n : ℕ) → 1 ≤ n → n < 2 ^ 31 → is_positive_i32 n ≡ true
unfolding is_positive_i32
is_positive n lo hi = ground arith

part_count-ne-zero : (sz : ℕ) → part_count sz ≢ 0
unfolding part_count
part_count-ne-zero sz e = omega arith

module _ (lua : LuaApi) (value : Value) (is_push : Bool) {h : Heap} {session msg : ℕ}
    {content : Bytes} (r : IsRequest h session msg content) where
  packrequest_number_eq :
      is_number value ≡ true
      → packrequest lua (request_args value session msg content) is_push h
        ≡ (packreq_number lua value session msg (length content) is_push
              >>= finish_request session msg (length content))
            h
  unfolding packrequest
  packrequest_number_eq num =
      let args : List Value = request_args value session msg content in
      rw (==_of_ne msg 0 r.not_null) (
        rw
          (
            check_integer_eq lua args 4 h (pos (length content)) refl,
            check_integer_eq lua args 2 h (pos session) refl,
          )
          (rw
            (
              word_of_pos (length content) r.size_lt,
              word_of_pos session (omega (arith, r.session_lt)),
            )
            (rw (is_positive session r.session_pos r.session_lt) (rw num))))

  pub packrequest_string_eq :
      is_number value ≡ false
      → packrequest lua (request_args value session msg content) is_push h
        ≡ (packreq_string lua value session msg (length content) is_push
              >>= finish_request session msg (length content))
            h
  unfolding packrequest
  packrequest_string_eq num =
      let args : List Value = request_args value session msg content in
      rw (==_of_ne msg 0 r.not_null) (
        rw
          (
            check_integer_eq lua args 4 h (pos (length content)) refl,
            check_integer_eq lua args 2 h (pos session) refl,
          )
          (rw
            (
              word_of_pos (length content) r.size_lt,
              word_of_pos session (omega (arith, r.session_lt)),
            )
            (rw (is_positive session r.session_pos r.session_lt) (rw num))))

  finish_single :
      (packet : Bytes)
      → finish_request session msg (length content) (packet, 0) h
        ≡ (ok (string packet ∷ word (next_session session) ∷ []), freed h msg)
  unfolding finish_request
  finish_single packet = rw (skynet_free_eq h msg content r.allocated)

  finish_multi :
      (packet : Bytes)
      → finish_request session msg (length content) (packet, part_count (length content)) h ≡ (
        ok (
            string packet
            ∷ word (next_session session)
            ∷ table (part_frames (part_count (length content)) session content)
            ∷ []),
        freed h msg,
      )
  unfolding finish_request
  finish_multi packet =
      rw (==_of_ne (part_count (length content)) 0 (part_count-ne-zero (length content))) (
        rw (packreq_multi_eq session msg content h r.allocated)
          (rw (skynet_free_eq h msg content r.allocated)))

  -- What one call returns: a short message in one packet, or a first packet and the parts.
  pub packrequest_number_single :
      is_number value ≡ true
      → length content < multi_part
      → packrequest lua (request_args value session msg content) is_push h ≡ (
        ok (
            string (
              framed (
                number_body
                  (to_u32 (to_integer_or_zero lua value))
                  (if is_push then 0 else session)
                  content))
            ∷ word (next_session session)
            ∷ []),
        freed h msg,
      )
  packrequest_number_single num short =
      packrequest_number_eq num
      ∙ rw (packreq_number_single lua value session msg is_push h content r.allocated short)
          (finish_single _)

  pub packrequest_number_multi :
      is_number value ≡ true
      → multi_part ≤ length content
      → packrequest lua (request_args value session msg content) is_push h ≡ (
        ok (
            string (
              framed (
                multi_number_body is_push
                  (to_u32 (to_integer_or_zero lua value))
                  session
                  (length content)))
            ∷ word (next_session session)
            ∷ table (part_frames (part_count (length content)) session content)
            ∷ []),
        freed h msg,
      )
  packrequest_number_multi num long =
      packrequest_number_eq num
      ∙ rw (packreq_number_multi lua value session msg is_push h (length content) long)
          (finish_multi _)

  module _ (name : Bytes) (is_name : lua.to_lstring value ≡ some name) (lo : 1 ≤ length name)
      (hi : length name ≤ 255) where
    pub packrequest_string_single :
        is_number value ≡ false
        → length content < multi_part
        → packrequest lua (request_args value session msg content) is_push h ≡ (
          ok (
              string (framed (string_body name (if is_push then 0 else session) content))
              ∷ word (next_session session)
              ∷ []),
          freed h msg,
        )
    packrequest_string_single num short =
        packrequest_string_eq num
        ∙ rw
            (packreq_string_single lua value session msg is_push h name content is_name lo hi
              r.allocated short)
            (finish_single _)

    pub packrequest_string_multi :
        is_number value ≡ false
        → multi_part ≤ length content
        → packrequest lua (request_args value session msg content) is_push h ≡ (
          ok (
              string (framed (multi_string_body is_push name session (length content)))
              ∷ word (next_session session)
              ∷ table (part_frames (part_count (length content)) session content)
              ∷ []),
          freed h msg,
        )
    packrequest_string_multi num long =
        packrequest_string_eq num
        ∙ rw
            (packreq_string_multi lua value session msg is_push h name (length content) is_name lo
              hi long)
            (finish_multi _)
