-- ===== src/Pack/Zip/Deflate.antt =====
-- zlib_compress (cpp/common/Pack.cpp) over any zlib that keeps its documented promises.
use testcluster.Prelude.{
  ℕ, zero, suc, ◌+◌, ◌*◌, ◌/◌, ◌<◌, ◌≤◌, ◌≡◌, ◌∙◌, refl, ap, sym, Bool, true, false, Bool-cases,
  inl, inr, Option, some, [], ◌∷◌, ◌++◌, length, length-append, length-take, length-drop, take,
  drop, take_all, drop_all, take-append-drop, ◌==◌, arith,
}
use testcluster.Pack.Order.{Bytes}
use testcluster.Pack.Zip.{
  Zlib, ZResult, Run, done, chunk, is_nil, is_stream_error, is_stream_end, deflate_loop, end_chunk,
  compress_loop, zlib_compress, Deflated,
}

-- What zlib documents of streams on which deflate is called with Z_NO_FLUSH and then Z_FINISH. `Takes s input finish` tells that
-- the stream may be called so: after deflateInit with any input; after Z_NO_FLUSH with any input; after Z_FINISH just with the
-- input that is left and Z_FINISH again (zlib's zpipe.c calls a stream so that has ended just when the room was full).
-- `fed` is the input that the stream took, `made` the output that it gave. Of such a call: deflate takes input and gives output
-- within the room, and has no error; with room left, all input was taken, and under Z_FINISH the stream has
-- ended; a stream that has ended inflates to what was fed; and the output for n bytes is within deflateBound(n).
pub record Promises (z : Zlib) (inflate : Bytes → Option Bytes) (deflate_bound : ℕ → ℕ)
    : Type 1 where
  pub Takes : z.Stream → Bytes → Bool → Type 0
  pub fed : z.Stream → Bytes
  pub made : z.Stream → Bytes
  pub start : z.Stream
  pub started : z.deflate_init ≡ some start
  pub takes_start : (input : Bytes) (finish : Bool) → Takes start input finish
  pub takes_more :
      (s : z.Stream) (input : Bytes) (room : ℕ) (more : Bytes) (finish : Bool)
      → Takes s input false
      → Takes ((z.deflate s input room false).1) more finish
  pub takes_rest :
      (s : z.Stream) (input : Bytes) (room : ℕ)
      → Takes s input true
      → Takes ((z.deflate s input room true).1) (drop ((z.deflate s input room true).2) input) true
  pub fed_start : fed start ≡ []
  pub made_start : made start ≡ []
  pub takes :
      (s : z.Stream) (input : Bytes) (room : ℕ) (finish : Bool)
      → Takes s input finish
      → fed ((z.deflate s input room finish).1)
        ≡ fed s ++ take ((z.deflate s input room finish).2) input
  pub gives :
      (s : z.Stream) (input : Bytes) (room : ℕ) (finish : Bool)
      → Takes s input finish
      → made ((z.deflate s input room finish).1) ≡ made s ++ (z.deflate s input room finish).3
  pub within :
      (s : z.Stream) (input : Bytes) (room : ℕ) (finish : Bool)
      → Takes s input finish
      → length ((z.deflate s input room finish).3) ≤ room
  pub no_error :
      (s : z.Stream) (input : Bytes) (room : ℕ) (finish : Bool)
      → Takes s input finish
      → is_stream_error ((z.deflate s input room finish).0) ≡ false
  pub all_taken :
      (s : z.Stream) (input : Bytes) (room : ℕ) (finish : Bool)
      → Takes s input finish
      → length ((z.deflate s input room finish).3) < room
      → length input ≤ (z.deflate s input room finish).2
  pub ends :
      (s : z.Stream) (input : Bytes) (room : ℕ)
      → Takes s input true
      → length ((z.deflate s input room true).3) < room
      → is_stream_end ((z.deflate s input room true).0) ≡ true
  pub inflates :
      (s : z.Stream) (input : Bytes) (room : ℕ)
      → Takes s input true
      → is_stream_end ((z.deflate s input room true).0) ≡ true
      → inflate (made ((z.deflate s input room true).1))
        ≡ some (fed ((z.deflate s input room true).1))
  pub bounded :
      (s : z.Stream) (input : Bytes) (finish : Bool)
      → Takes s input finish
      → length (made s) ≤ deflate_bound (length (fed s))
  pub monotone : (m n : ℕ) → m ≤ n → deflate_bound m ≤ deflate_bound n

-- What is fed and what is left of the input are all of it.
fed_left :
    (fed input : Bytes) (taken : ℕ) → (fed ++ take taken input) ++ drop taken input ≡ fed ++ input
fed_left [] input taken = take-append-drop taken input
fed_left (c ∷ fed) input taken = ap (λ r. c ∷ r) (fed_left fed input taken)

append_nil : (xs : Bytes) → xs ++ [] ≡ xs
append_nil [] = refl
append_nil (x ∷ xs) = ap (λ r. x ∷ r) (append_nil xs)

module _ (z : Zlib) (inflate : Bytes → Option Bytes) (deflate_bound : ℕ → ℕ)
    (p : Promises z inflate deflate_bound) where
  -- Behind a call, the stream takes what is left.
  takes_left :
      (s : z.Stream) (input : Bytes) (room : ℕ) (finish : Bool)
      → p.Takes s input finish
      → p.Takes
          ((z.deflate s input room finish).1)
          (drop ((z.deflate s input room finish).2) input)
          finish
  takes_left s input room true t = p.takes_rest s input room t
  takes_left s input room false t = p.takes_more s input room _ false t

  takes_next :
      (s : z.Stream) (input : Bytes) (room : ℕ) (finish : Bool)
      → p.Takes s input finish
      → finish ≡ false
      → (more : Bytes) (last : Bool) → p.Takes ((z.deflate s input room finish).1) more last
  takes_next s input room true t e more last = cc (e)
  takes_next s input room false t e more last = p.takes_more s input room more last t

  ended_at :
      (s : z.Stream) (input : Bytes) (room : ℕ) (finish : Bool)
      → p.Takes s input finish
      → length ((z.deflate s input room finish).3) < room
      → finish ≡ true
      → (is_stream_end ((z.deflate s input room finish).0) ≡ true)
        × (inflate (p.made ((z.deflate s input room finish).1))
            ≡ some (p.fed ((z.deflate s input room finish).1)))
  ended_at s input room true t less e =
      let last = p.ends s input room t less in (last, p.inflates s input room t last)
  ended_at s input room false t less e = cc (e)

  -- A run of the inner loop that has used its input; under Z_FINISH the stream has ended.
  record Used (s : z.Stream) (input : Bytes) (finish : Bool) (run : Run (Deflated z)) : Type 0 where
    code : ZResult
    stream : z.Stream
    out : Bytes
    is : run ≡ done (code, stream, [], out)
    fed_all : p.fed stream ≡ p.fed s ++ input
    made_out : p.made stream ≡ out
    bound : length (p.made stream) ≤ deflate_bound (length (p.fed stream))
    ready : finish ≡ false → (more : Bytes) (last : Bool) → p.Takes stream more last
    ended : finish ≡ true → (is_stream_end code ≡ true) × (inflate out ≡ some (p.fed stream))

  -- The loop ends within as many rounds as the bound has chunks.
  deflate_loop-Used :
      (rounds : ℕ) (s : z.Stream) (input : Bytes) (finish : Bool) (out : Bytes)
      → p.Takes s input finish
      → p.made s ≡ out
      → deflate_bound (length (p.fed s ++ input)) < length out + rounds * chunk
      → Used s input finish (deflate_loop z rounds s input finish out)
  unfolding deflate_loop
  deflate_loop-Used zero s input finish out t same enough =
      let bound = p.bounded s input finish t in
      let more =
        p.monotone (length (p.fed s)) (length (p.fed s ++ input))
          (rw (length-append (p.fed s) input) (omega arith)) in
      let size = ap length same in absurd (omega arith)
  deflate_loop-Used (suc rounds) s input finish out t same enough =
      let made = (z.deflate s input chunk finish).3 in
      let taken = (z.deflate s input chunk finish).2 in
      let next = (z.deflate s input chunk finish).1 in
      let outs : p.made next ≡ out ++ made =
        p.gives s input chunk finish t ∙ ap (λ m. m ++ made) same in
      let no_error = p.no_error s input chunk finish t in
      elim (Bool-cases (length made == chunk)) [
        | inl full ↦
            let rest : p.fed next ++ drop taken input ≡ p.fed s ++ input =
              ap (λ f. f ++ drop taken input) (p.takes s input chunk finish t)
              ∙ fed_left (p.fed s) input taken in
            let size : length made ≡ chunk = ground arith in
            let enough_left : deflate_bound (length (p.fed next ++ drop taken input))
                < length (out ++ made) + rounds * chunk =
              rw (rest, length-append out made) (omega arith) in
            let again =
              deflate_loop-Used rounds next (drop taken input) finish (out ++ made)
                (takes_left s input chunk finish t) outs enough_left in
            rw (no_error, full)
              (record {
                code = again.code;
                stream = again.stream;
                out = again.out;
                is = again.is;
                fed_all = again.fed_all ∙ rest;
                made_out = again.made_out;
                bound = again.bound;
                ready = again.ready;
                ended = again.ended;
              })
        | inr room ↦
            let inside = p.within s input chunk finish t in
            let less : length made < chunk = ground arith in
            let all = p.all_taken s input chunk finish t less in
            rw (no_error, room, drop_all taken input all)
              (record {
                code = (z.deflate s input chunk finish).0;
                stream = next;
                out = out ++ made;
                is = refl;
                fed_all =
                    p.takes s input chunk finish t
                    ∙ ap (λ t. p.fed s ++ t) (take_all taken input all);
                made_out = outs;
                bound =
                    p.bounded next (drop taken input) finish (takes_left s input chunk finish t);
                ready = takes_next s input chunk finish t;
                ended = (λ e.
                    let (last, text) = ended_at s input chunk finish t less e in
                    (last, ap (λ m. inflate m) (sym outs) ∙ text));
              })
      ]

  nil_of : (xs : Bytes) → is_nil xs ≡ true → xs ≡ []
  unfolding is_nil
  nil_of [] e = refl
  nil_of (x ∷ xs) e = ground arith

  some_left : (xs : Bytes) → is_nil xs ≡ false → 1 ≤ length xs
  unfolding is_nil
  some_left [] e = ground arith
  some_left (x ∷ xs) e = omega arith

  end_last :
      (next : z.Stream → Bytes → Run Bytes) (finish : Bool) (run : Run (Deflated z))
      (code : ZResult) (stream : z.Stream) (out : Bytes)
      → run ≡ done (code, stream, [], out)
      → finish ≡ true
      → is_stream_end code ≡ true
      → end_chunk z next finish run ≡ done out
  unfolding end_chunk
  end_last next finish run code stream out e f g = rw (e, f, g)

  end_more :
      (next : z.Stream → Bytes → Run Bytes) (finish : Bool) (run : Run (Deflated z))
      (code : ZResult) (stream : z.Stream) (out : Bytes)
      → run ≡ done (code, stream, [], out)
      → finish ≡ false
      → end_chunk z next finish run ≡ next stream out
  unfolding end_chunk
  end_more next finish run code stream out e f = rw (e, f)

  -- A run that makes what inflates to the data.
  abbrev Compresses : Bytes → Run Bytes → Type 0
  Compresses text run =
      (output : Bytes) × (run ≡ done output)
      × (inflate output ≡ some text)
      × (length output ≤ deflate_bound (length text))

  length-take_le : (xs : Bytes) → length (take chunk xs) ≤ length xs
  length-take_le xs = rw (length-take chunk xs) (omega arith)

  compress_loop-Compresses :
      (chunks rounds : ℕ) (s : z.Stream) (rest out : Bytes)
      → ((more : Bytes) (last : Bool) → p.Takes s more last)
      → p.made s ≡ out
      → length rest / chunk < chunks
      → deflate_bound (length (p.fed s ++ rest)) < rounds * chunk
      → Compresses (p.fed s ++ rest) (compress_loop z chunks rounds s rest out)
  unfolding compress_loop
  compress_loop-Compresses zero rounds s rest out t same enough within = absurd (omega arith)
  compress_loop-Compresses (suc chunks) rounds s rest out t same enough within =
      let behind = drop chunk rest in
      let shorter : length (p.fed s ++ take chunk rest) ≤ length (p.fed s ++ rest) =
        rw (length-append (p.fed s) (take chunk rest), length-append (p.fed s) rest)
          (let l = length-take_le rest in omega arith) in
      let more =
        p.monotone (length (p.fed s ++ take chunk rest)) (length (p.fed s ++ rest)) shorter in
      let used =
        deflate_loop-Used rounds s (take chunk rest) (is_nil behind) out
          (t (take chunk rest) (is_nil behind)) same (omega arith) in
      let fed_rest : p.fed used.stream ++ behind ≡ p.fed s ++ rest =
        ap (λ f. f ++ behind) used.fed_all ∙ fed_left (p.fed s) rest chunk in
      elim (Bool-cases (is_nil behind)) [
        | inl last ↦
            let (stream_end, text) = used.ended last in
            let all : p.fed used.stream ≡ p.fed s ++ rest =
              sym (append_nil (p.fed used.stream))
              ∙ ap (λ b. p.fed used.stream ++ b) (sym (nil_of behind last))
              ∙ fed_rest in
            (
              used.out,
              end_last (λ next made. compress_loop z chunks rounds next behind made) (is_nil behind)
                  (deflate_loop z rounds s (take chunk rest) (is_nil behind) out) used.code
                  used.stream used.out used.is last stream_end,
              text ∙ ap (λ t. some t) all,
              (let bound = used.bound in
                  let size = ap length used.made_out in
                  let whole = ap (λ t. deflate_bound (length t)) all in omega arith),
            )
        | inr others ↦
            let longer = some_left behind others in
            let size = length-drop chunk rest in
            let (output, runs, text, short) =
              compress_loop-Compresses chunks rounds used.stream behind used.out (used.ready others)
                used.made_out (omega arith) (rw (fed_rest) within) in
            (
              output,
              end_more (λ next made. compress_loop z chunks rounds next behind made) (is_nil behind)
                    (deflate_loop z rounds s (take chunk rest) (is_nil behind) out) used.code
                    used.stream used.out used.is others
                  ∙ runs,
              text ∙ ap (λ t. some t) fed_rest,
              (let whole = ap (λ t. deflate_bound (length t)) fed_rest in omega arith),
            )
      ]

  -- With rounds for deflateBound of the data, zlib_compress ends with success, and its output inflates to the data and is
  -- within the bound.
  pub zlib_compress-inflates :
      (rounds : ℕ) (text : Bytes)
      → deflate_bound (length text) < rounds * chunk
      → (output : Bytes) × (zlib_compress z rounds text ≡ done output)
        × (inflate output ≡ some text)
        × (length output ≤ deflate_bound (length text))
  unfolding zlib_compress
  zlib_compress-inflates rounds text within =
      let fed : p.fed p.start ++ text ≡ text = ap (λ f. f ++ text) p.fed_start in
      let (output, runs, same, short) =
        compress_loop-Compresses (length text / chunk + 1) rounds p.start text [] p.takes_start
          p.made_start (omega arith) (rw (fed) within) in
      (
        output,
        rw (p.started, zlib_compress) runs,
        same ∙ ap (λ t. some t) fed,
        (let whole = ap (λ t. deflate_bound (length t)) fed in omega arith),
      )
