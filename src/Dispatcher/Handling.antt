-- ===== src/Dispatcher/Handling.antt =====
-- Packets of C++ services are handled by the function that the name of their type ends in (lua/lib/dispatcher.lua).
use testcluster.Prelude.{
  ℕ, ◌^◌, ◌<◌, ◌≡◌, ◌≢◌, true, false, ==_of_ne, arith, refl, sym, ap, ◌∙◌, Bool, Bool-cases, inl,
  inr, Option, none, some, List, [], ◌∷◌, ◌++◌,
}
use testcluster.Pack.Order.{Bytes}
use testcluster.Pack.Decode.{Protobuf, ◌>>=◌}
use testcluster.Pack.Encode.{serialize_imsg_type}
use testcluster.Protopack.{LuaProtobuf, pack_raw, room_or_zero}
use testcluster.Protopack.Interop.{SameMessage, packs_the_same, reads_the_same}
use testcluster.Service.Table.{same_name, same_name_refl, same_name-eq}
use testcluster.Dispatcher.{
  last_word, Handler, Dispatcher, new, register, function_of, reg_by, reg, after_reg, regs, Event,
  called, redirected, subtype_rpc_client, pb_prefix, redirect, answer_rpc, handle_by, dispatch,
  text,
}
use testcluster.Dispatcher.Words.{IsWord, last_word_of_type}

-- Names that have letters.
abbrev pub HaveWords : List Bytes → Type 0
HaveWords [] = Unit
HaveWords (name ∷ names) = ((funcname : Bytes) × (last_word name ≡ some funcname)) × HaveWords names

module _ {F : Type 0} where
  reg_all : Dispatcher F → List Bytes → Option ℕ → Dispatcher F
  reg_all self [] obj = self
  reg_all self (v ∷ names) obj = reg_all (reg self v obj) names obj

  regs-reg_all :
      (self : Dispatcher F) (names : List Bytes) (obj : Option ℕ)
      → HaveWords names
      → regs self names obj ≡ some (reg_all self names obj)
  unfolding regs reg_all after_reg
  regs-reg_all self [] obj w = refl
  regs-reg_all self (v ∷ names) obj ((funcname, e), w) =
      ap (λ w'. after_reg (reg self v obj) w' >>= λ next. regs next names obj) e
      ∙ regs-reg_all (reg self v obj) names obj w

  ftable_kept :
      (self : Dispatcher F) (name : Bytes) (obj : Option ℕ) (f : Option F)
      → (reg_by self name obj f).ftable ≡ self.ftable
  unfolding reg_by register
  ftable_kept self name obj none = refl
  ftable_kept self name obj (some f) = refl

  -- The entry that a name gets.
  module _ (name funcname : Bytes) (f : F) (obj : Option ℕ)
      (word : last_word name ≡ some funcname) where
    HasHandler : Dispatcher F → Type 0
    HasHandler self = self.map name ≡ some (record { f = f; obj = obj })

    function_found :
        (self : Dispatcher F)
        → self.ftable funcname ≡ some f
        → function_of self (last_word name) ≡ some f
    unfolding function_of
    function_found self e = ap (λ w. function_of self w) word ∙ e

    registered-HasHandler :
        (self : Dispatcher F) → self.ftable funcname ≡ some f → HasHandler (reg self name obj)
    unfolding HasHandler reg reg_by register
    registered-HasHandler self e = rw (function_found self e, reg) (rw (same_name_refl name) refl)

    -- Other names leave it, and the name itself gets the same again.
    kept-HasHandler :
        (self : Dispatcher F) (v : Bytes) (g : Option F)
        → function_of self (last_word v) ≡ g
        → self.ftable funcname ≡ some f
        → HasHandler self
        → HasHandler (reg_by self v obj g)
    unfolding HasHandler reg_by register
    kept-HasHandler self v none e has h = h
    kept-HasHandler self v (some g) e has h = elim (Bool-cases (same_name v name)) [
      | inr other ↦ rw (other) h
      | inl same ↦
          let there : v ≡ name = same_name-eq v name same in
          let again : some g ≡ some f =
            sym e ∙ ap (λ n. function_of self (last_word n)) there ∙ function_found self has in
          let it : g ≡ f = cc (again) in rw (same, it) refl
    ]

    reg-HasHandler :
        (self : Dispatcher F) (v : Bytes)
        → self.ftable funcname ≡ some f
        → HasHandler self
        → HasHandler (reg self v obj)
    unfolding reg
    reg-HasHandler self v has h = kept-HasHandler self v (function_of self (last_word v)) refl has h

    ftable_after :
        (self : Dispatcher F) (v : Bytes)
        → self.ftable funcname ≡ some f
        → (reg self v obj).ftable funcname ≡ some f
    unfolding reg
    ftable_after self v has =
        ap (λ ftable. ftable funcname) (ftable_kept self v obj (function_of self (last_word v)))
        ∙ has

    behind-HasHandler :
        (self : Dispatcher F) (names : List Bytes)
        → self.ftable funcname ≡ some f
        → HasHandler self
        → HasHandler (reg_all self names obj)
    unfolding reg_all
    behind-HasHandler self [] has h = h
    behind-HasHandler self (v ∷ names) has h =
        behind-HasHandler (reg self v obj) names (ftable_after self v has)
          (reg-HasHandler self v has h)

    reg_all-HasHandler :
        (self : Dispatcher F) (before after : List Bytes)
        → self.ftable funcname ≡ some f
        → HasHandler (reg_all self (before ++ name ∷ after) obj)
    unfolding reg_all
    reg_all-HasHandler self [] after has =
        behind-HasHandler (reg self name obj) after (ftable_after self name has)
          (registered-HasHandler self has)
    reg_all-HasHandler self (v ∷ before) after has =
        reg_all-HasHandler (reg self v obj) before after (ftable_after self v has)

-- What the end of dispatch comes to, of what the function returned: nothing is sent if it returned nothing or if nobody asked
-- (session 0). An answer, where a protocol rpc_response is registered, goes to the source under the session as the packet that
-- a C++ service would make of it; where none is (no service of the repository registers it), it is an error.
pub data Answers (pb : Protobuf) (lua : LuaProtobuf) {F : Type 0} (uid session source : ℕ)
    (registered : Bool)
    : Option (Bytes × lua.Message) → Option (List (Event F lua.Message)) → Type 0 where
  says_nothing : Answers pb lua uid session source registered none (some [])
  is_send :
      (r : Bytes × lua.Message)
      → session ≡ 0
      → Answers pb lua uid session source registered (some r) (some [])
  redirects :
      (rsp_pb_name : Bytes) (rsp : pb.Message) (table : lua.Message)
      → SameMessage pb lua rsp table
      → pb.get_type_name rsp ≡ pb_prefix ++ rsp_pb_name
      → session ≢ 0
      → registered ≡ true
      → Answers pb lua uid session source registered (some (rsp_pb_name, table)) (
          some
            (redirected source session (serialize_imsg_type pb rsp uid subtype_rpc_client 0) ∷ []))
  fails :
      (rsp_pb_name : Bytes) (rsp : pb.Message) (table : lua.Message)
      → SameMessage pb lua rsp table
      → pb.get_type_name rsp ≡ pb_prefix ++ rsp_pb_name
      → session ≢ 0
      → registered ≡ false
      → Answers pb lua uid session source registered (some (rsp_pb_name, table)) none

module _ (pb : Protobuf) (lua : LuaProtobuf) {F : Type 0}
    (reply : F → ℕ → Option lua.Message → ℕ → ℕ → Option (Bytes × lua.Message)) (registered : Bool)
    (uid session source : ℕ) (wide : uid < 2 ^ 64) where
  answer_packed :
      (rsp_pb_name : Bytes) (rsp : pb.Message) (table : lua.Message)
      → SameMessage pb lua rsp table
      → pb.get_type_name rsp ≡ pb_prefix ++ rsp_pb_name
      → session ≢ 0
      → answer_rpc lua reply registered uid session source (some (rsp_pb_name, table))
        ≡ redirect lua reply registered source session
            (serialize_imsg_type pb rsp uid subtype_rpc_client 0)
  unfolding answer_rpc pack_raw room_or_zero
  answer_packed rsp_pb_name rsp table same named asked =
      let packed =
        (packs_the_same pb lua rsp table same uid 0 wide (omega arith) subtype_rpc_client
          (omega arith)).0 in
      let packet = rw named at packed in rw (==_of_ne session 0 asked) (rw (packet) refl)

  answer_rpc-Answers :
      (r : Option (Bytes × lua.Message)) (answers : Option (List (Event F lua.Message)))
      → Answers pb lua uid session source registered r answers
      → answer_rpc lua reply registered uid session source r ≡ answers
  unfolding answer_rpc redirect
  answer_rpc-Answers none answers says_nothing = refl
  answer_rpc-Answers (some answer) answers (is_send r none_asked) = rw (none_asked) refl
  answer_rpc-Answers (some answer) answers (redirects name rsp table same named asked is) =
      answer_packed name rsp table same named asked ∙ rw (is) refl
  answer_rpc-Answers (some answer) answers (fails name rsp table same named asked is) =
      answer_packed name rsp table same named asked ∙ rw (is) refl

dispatch_found :
    {F : Type 0} (lua : LuaProtobuf)
    (reply : F → ℕ → Option lua.Message → ℕ → ℕ → Option (Bytes × lua.Message)) (registered : Bool)
    (self : Dispatcher F) (handler : Handler F) (uid : ℕ) (name : Bytes) (msg : Option lua.Message)
    (session source : ℕ) (answers : Option (List (Event F lua.Message)))
    → self.map name ≡ some handler
    → answer_rpc lua reply registered uid session source (reply handler.f uid msg session source)
      ≡ answers
    → dispatch lua reply registered self uid name msg session source ≡ (do
      events ← answers
      some (
        record self { last_name = name },
        called handler.f handler.obj uid msg session source ∷ events,
      ))
unfolding dispatch handle_by
dispatch_found lua reply registered self handler uid name msg session source none found answered =
    rw (found, handle_by) (rw (answered) refl)
dispatch_found lua reply registered self handler uid name msg session source (some events) found
      answered =
    rw (found, handle_by) (rw (answered) refl)

module _ (pb : Protobuf) (lua : LuaProtobuf) (msg : pb.Message) (table : lua.Message)
    (same : SameMessage pb lua msg table) (front func : Bytes) (c : ℕ) (word : IsWord (c ∷ func))
    (typed : pb.get_type_name msg ≡ front ++ b'.' ∷ c ∷ func) where
  -- A service whose table has a function for the last word of a type name, and which registers this type among others (each with
  -- letters in it): registering succeeds, and a packet that a C++ service makes of a message of the type (serialize_imsg_type)
  -- runs that function once, with the uid and the message. Nothing more is sent if the function returned nothing or the session
  -- is 0. If it returned a message (of a type pb.*), that is sent to the source under the session, as the packet
  -- that serialize_imsg_type makes with the sub_type of answers, where a protocol rpc_response is registered; where none
  -- is, dispatch ends with an error.
  pub packet_handled :
      {F : Type 0} (reply : F → ℕ → Option lua.Message → ℕ → ℕ → Option (Bytes × lua.Message))
      (registered : Bool) (ftable : Bytes → Option F) (f : F)
      → ftable (c ∷ func) ≡ some f
      → (before after : List Bytes) → HaveWords (before ++ pb.get_type_name msg ∷ after)
      → (uid roomid type session source : ℕ) → uid < 2 ^ 64
      → roomid < 2 ^ 32
      → (answers : Option (List (Event F lua.Message)))
      → Answers pb lua uid session source registered
          (reply f uid (lua.decode (pb.get_type_name msg) same.text) session source)
          answers
      → (self : Dispatcher F) × (next : Dispatcher F) × (regs
            (new ftable)
            (before ++ pb.get_type_name msg ∷ after)
            none
          ≡ some self)
        × (text lua reply registered self
              (serialize_imsg_type pb msg uid type roomid)
              session
              source
            ≡ (do
              events ← answers
              some (
                next,
                called f none uid (lua.decode (pb.get_type_name msg) same.text) session source
                    ∷ events,
              )))
  unfolding text new HasHandler
  packet_handled reply registered ftable f has before after words uid roomid type session source
        wide room answers answered =
      let name = pb.get_type_name msg in
      let names = before ++ name ∷ after in
      let self = reg_all (new ftable) names none in
      let funcname : last_word name ≡ some (c ∷ func) =
        ap (λ n. last_word n) typed ∙ last_word_of_type front func c word in
      let handler =
        reg_all-HasHandler name (c ∷ func) f none funcname (new ftable) before after has in
      (
        self,
        record self { last_name = name },
        regs-reg_all (new ftable) names none words,
        ap
              (λ r. r >>= λ (uid', name', msg').
                dispatch lua reply registered self uid' name' msg' session source)
              ((reads_the_same pb lua msg table same uid roomid wide room type).0)
            ∙ dispatch_found lua reply registered self (record { f = f; obj = none }) uid name
                (lua.decode name same.text) session source answers handler
                (answer_rpc-Answers pb lua reply registered uid session source wide _ answers
                  answered),
      )
