-- ===== src/Server/Frames/Accepts.antt =====
-- What is known of a frame that readFrame returns.
use Prim.Native.Nat.{bit_and}
use nadesiko_reversi.Prelude.{
  ℕ, zero, suc, ◌+◌, ◌≤◌, ◌≡◌, ◌∙◌, sym, ap, refl, subst, true, false, ◌&&◌, List, [], ◌∷◌, length,
  leb, ltb, ◌==◌, arith, if_cases,
}
use nadesiko_reversi.Server.Frames.{
  max_message, WsFrame, Step, got, stopped, ◌>>=◌, put_first, read_bytes, read_length, short_length,
  long_length, unmask, payload_bad, check_payload, read_payload, is_known, header_bad, read_headed,
  read_frame,
}
use nadesiko_reversi.Server.Frames.Client.{length-unmask}

put_first-got :
    (b n : ℕ) (x : Step (List ℕ)) (s bs rest : List ℕ)
    → ((cs : List ℕ) (r : List ℕ) → x ≡ got cs r → (length cs ≡ n) × (length s ≡ n + length r))
    → put_first b x ≡ got bs rest
    → (length bs ≡ suc n) × (suc (length s) ≡ suc n + length rest)
put_first-got b n (stopped e) s bs rest v h = absurd cc
put_first-got b n (got cs r) s bs rest v h =
    let same : b ∷ cs ≡ bs = cc in
    let same_rest : r ≡ rest = cc in
    let (size, left) = v cs r refl in
    (ap length (sym same) ∙ ap suc size, omega (arith, left, ap length same_rest))

read_bytes-got :
    (n : ℕ) (s bs rest : List ℕ)
    → read_bytes n s ≡ got bs rest
    → (length bs ≡ n) × (length s ≡ n + length rest)
unfolding read_bytes
read_bytes-got zero s bs rest h =
    let none_read : [] ≡ bs = cc in
    let same : s ≡ rest = cc in (ap length (sym none_read), ap length same ∙ omega arith)
read_bytes-got (suc n) [] bs rest h = absurd cc
read_bytes-got (suc n) (b ∷ s) bs rest h =
    put_first-got b n (read_bytes n s) s bs rest (λ cs r. read_bytes-got n s cs r) h

-- What a step gives when it goes on.
bind-got :
    {A : Type 0} {B : Type 0} (x : Step A) (f : A → List ℕ → Step B) (b : B) (rest : List ℕ)
    → (x >>= f) ≡ got b rest
    → (a : A) × (s : List ℕ) × (x ≡ got a s) × (f a s ≡ got b rest)
bind-got (got a s) f b rest h = (a, s, refl, h)
bind-got (stopped e) f b rest h = absurd cc

short_length-got : (bs s rest : List ℕ) (n : ℕ) → short_length bs s ≡ got n rest → s ≡ rest
short_length-got bs s rest n h = ground (arith, h)

long_length-got : (bs s rest : List ℕ) (n : ℕ) → long_length bs s ≡ got n rest → s ≡ rest
long_length-got bs s rest n h = ground (arith, h)

extended-got :
    (k n : ℕ) (s rest : List ℕ) (f : List ℕ → List ℕ → Step ℕ)
    → ((bs t : List ℕ) → f bs t ≡ got n rest → t ≡ rest)
    → (read_bytes k s >>= f) ≡ got n rest
    → length rest ≤ length s
extended-got k n s rest f v h =
    let (bs, t, read, given) = bind-got (read_bytes k s) f n rest h in
    omega (arith, (read_bytes-got k s bs t read).1, ap length (v bs t given))

read_length-got :
    (k n : ℕ) (s rest : List ℕ) → read_length k s ≡ got n rest → length rest ≤ length s
unfolding read_length
read_length-got k n s rest h =
    if_cases (λ (x : Step ℕ). x ≡ got n rest → length rest ≤ length s) (k == 126) _ _
      (λ short e. extended-got 2 n s rest short_length (λ bs t. short_length-got bs t rest n) e)
      (λ other e.
        if_cases (λ (x : Step ℕ). x ≡ got n rest → length rest ≤ length s) (k == 127) _ _
          (λ long d. extended-got 8 n s rest long_length (λ bs t. long_length-got bs t rest n) d)
          (λ small d. let same : s ≡ rest = cc in omega (arith, ap length same)) e)
      h

-- A frame that the server goes on with: one of the four kinds, no longer than its kind allows, and
-- with text and reasons that are UTF-8. `used` bytes were read for it.
pub record IsAccepted (f : WsFrame) : Type 0 where
  pub known : is_known f.opcode ≡ true
  pub bounded : length f.payload ≤ max_message
  pub control : 8 ≤ f.opcode → length f.payload ≤ 125
  pub well_formed : payload_bad f.opcode f.payload ≡ false

check_payload-got :
    (op : ℕ) (bs s rest : List ℕ) (f : WsFrame)
    → check_payload op bs s ≡ got f rest
    → (payload_bad op bs ≡ false) × (record { opcode = op; payload = bs } ≡ f) × (s ≡ rest)
unfolding check_payload
check_payload-got op bs s rest f h =
    if_cases
      (λ (x : Step WsFrame).
        x ≡ got f rest
        → (payload_bad op bs ≡ false) × (record { opcode = op; payload = bs } ≡ f) × (s ≡ rest))
      (payload_bad op bs) _ _ (λ bad e. absurd cc) (λ good e. (good, cc, cc)) h

read_masked-got :
    (op n : ℕ) (s rest : List ℕ) (f : WsFrame)
    → is_known op ≡ true
    → n ≤ max_message
    → (8 ≤ op → n ≤ 125)
    → (read_bytes 4 s >>= λ mask s1.
        read_bytes n s1 >>= λ bytes s2. check_payload op (unmask 0 mask bytes) s2)
      ≡ got f rest
    → IsAccepted f × (length rest + 4 ≤ length s)
read_masked-got op n s rest f known small control h =
    let (mask, s1, masked, h1) = bind-got (read_bytes 4 s) _ f rest h in
    let (bytes, s2, read, h2) = bind-got (read_bytes n s1) _ f rest h1 in
    let (good, same, ends) = check_payload-got op (unmask 0 mask bytes) s2 rest f h2 in
    let (size, left) = read_bytes-got n s1 bytes s2 read in
    let sized : length (unmask 0 mask bytes) ≡ n = length-unmask 0 mask bytes ∙ size in
    (
      subst IsAccepted same (record {
        known = known;
        bounded = omega (arith, sized, small);
        control = λ h. omega (arith, sized, control h);
        well_formed = good;
      }),
      omega (arith, (read_bytes-got 4 s mask s1 masked).1, left, ap length ends),
    )

read_payload-got :
    (op n : ℕ) (s rest : List ℕ) (f : WsFrame)
    → is_known op ≡ true
    → read_payload op n s ≡ got f rest
    → IsAccepted f × (length rest + 4 ≤ length s)
unfolding read_payload
read_payload-got op n s rest f known h =
    if_cases (λ (x : Step WsFrame). x ≡ got f rest → IsAccepted f × (length rest + 4 ≤ length s))
      (ltb max_message n) _ _ (λ large e. absurd cc)
      (λ small e.
        if_cases
          (λ (x : Step WsFrame). x ≡ got f rest → IsAccepted f × (length rest + 4 ≤ length s))
          (leb 8 op && ltb 125 n) _ _ (λ long d. absurd cc)
          (λ short d.
            read_masked-got op n s rest f known (ground (arith, small))
              (λ k. ground (arith, short, k)) d)
          e)
      h

header-known :
    (first second : ℕ) → header_bad first second ≡ false → is_known (bit_and first 15) ≡ true
unfolding header_bad
header-known first second h = ground (arith, h)

read_headed-got :
    (first second : ℕ) (s rest : List ℕ) (f : WsFrame)
    → read_headed first second s ≡ got f rest
    → IsAccepted f × (length rest + 4 ≤ length s)
unfolding read_headed
read_headed-got first second s rest f h =
    if_cases (λ (x : Step WsFrame). x ≡ got f rest → IsAccepted f × (length rest + 4 ≤ length s))
      (header_bad first second) _ _ (λ bad e. absurd cc)
      (λ good e.
        let (n, s1, sized, e1) = bind-got (read_length (bit_and second 127) s) _ f rest e in
        let (accepted, left) =
          read_payload-got (bit_and first 15) n s1 rest f (header-known first second good) e1 in
        (accepted, omega (arith, left, read_length-got (bit_and second 127) n s s1 sized)))
      h

-- Whatever the bytes, a frame that readFrame returns is of one of the four kinds, has at most 65536 bytes and as a control frame at most 125, has a payload that is well formed, and at least six bytes were used for it.
pub read_frame-IsAccepted :
    (s rest : List ℕ) (f : WsFrame)
    → read_frame s ≡ got f rest
    → IsAccepted f × (length rest + 6 ≤ length s)
unfolding read_frame
read_frame-IsAccepted [] rest f h = absurd cc
read_frame-IsAccepted (first ∷ []) rest f h = absurd cc
read_frame-IsAccepted (first ∷ second ∷ s) rest f h =
    let (accepted, left) = read_headed-got first second s rest f h in
    (accepted, omega (arith, left))
