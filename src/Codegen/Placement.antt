-- ===== src/Codegen/Placement.antt =====
-- src/codegen.c: the two passes agree. The first pass gives each instruction its place in the code
-- and its length; the second pass puts it there.
use rvcc.Prelude.{
  ℕ, ◌+◌, ◌≤◌, ◌<◌, ◌≡◌, refl, sym, ap, ◌∙◌, subst, List, [], ◌∷◌, ◌++◌, arith, none, length,
}
use rvcc.Result.{ok, >>=-eq-ok}
use rvcc.Word.{IsWord, word_mod, add32}
use rvcc.Il.{IlInstr}
use rvcc.Tables.{Tables}
use rvcc.Tables.Shape.{SameShape, SameShape-trans}
use rvcc.Buffer.{Buffer}
use rvcc.Buffer.Writes.{Appended, Appended-refl, Appended-trans, ok_injective, length-Appended}
use rvcc.Elf.Defs.{Sections}
use rvcc.Backend.Defs.{BackendDef}
use rvcc.Backend.Laws.{BackendLaws}
use rvcc.Codegen.Sizing.{calculate_from, c_calculate_code_length, c_size_functions}
use rvcc.Codegen.Shape.{Sized-c_size_functions}
use rvcc.Codegen.Defs.{Gen, gen_instr, gen_loop, c_generate, code_start_address}
use rvcc.Codegen.Growth.{Grown, Grows-gen_op}

-- Every destination register of the list is given by a C int.
abbrev pub HasWords : List IlInstr → Type 0
HasWords [] = Unit
HasWords (ii ∷ il) = IsWord ii.param_no × HasWords il

-- `ii` stands in the code of `final` where the first pass has put it: the rounds before it end at
-- its place, and its own round writes the bytes that follow, as many as its length.
pub record Placed (be : BackendDef) (cs ds : ℕ) (ii : IlInstr) (final : Buffer) : Type 0 where
  pub before : Gen
  pub after : Gen
  pub generated : gen_instr be cs ds ii before ≡ ok after
  pub start : length before.sections.code.bytes ≡ ii.code_offset
  pub stop : length after.sections.code.bytes ≡ ii.code_offset + ii.op_len
  pub chunk : List ℕ
  pub rest : List ℕ
  pub written : after.sections.code.bytes ≡ before.sections.code.bytes ++ chunk
  pub kept : final.bytes ≡ after.sections.code.bytes ++ rest

abbrev pub AllPlaced : BackendDef → ℕ → ℕ → List IlInstr → Buffer → Type 0
AllPlaced be cs ds [] final = Unit
AllPlaced be cs ds (ii ∷ il) final = Placed be cs ds ii final × AllPlaced be cs ds il final

module _ (be : BackendDef) (laws : BackendLaws be) (cs ds : ℕ) where
  -- One round, from the place that the first pass has computed, ends at the next such place.
  round-Grown :
      (t : Tables) (ii : IlInstr) (offset len : ℕ) (g g' : Gen)
      → IsWord ii.param_no
      → SameShape t g.tables
      → be.c_get_code_length t (record ii { code_offset = offset }) ≡ ok len
      → gen_instr be cs ds (record ii { code_offset = offset; op_len = len }) g ≡ ok g'
      → Grown len g g'
  unfolding gen_instr
  round-Grown t ii offset len g g' w same l h =
      Grows-gen_op be laws ii.op (record ii { code_offset = offset; op_len = len }) len _ g w refl
        (sym (laws.stable t g.tables _ same) ∙ (laws.unplaced t ii offset len ∙ l)) g' h

  -- What the main loop has done by its end.
  record Looped (placed : List IlInstr) (total : ℕ) (g g' : Gen) : Type 0 where
    all : AllPlaced be cs ds placed g'.sections.code
    size : length g'.sections.code.bytes ≡ total
    rest : List ℕ
    code : Appended rest g.sections.code g'.sections.code
    tables : g'.tables ≡ g.tables

  Looped-nil :
      (code_len : ℕ) (g g' : Gen)
      → length g.sections.code.bytes ≡ code_len
      → g ≡ g'
      → Looped [] code_len g g'
  Looped-nil code_len g g' here e = subst (Looped [] code_len g) e (record {
    all = tt;
    size = here;
    rest = [];
    code = Appended-refl g.sections.code;
    tables = refl;
  })

  -- The first instruction is placed, where the loop over the others goes well from its end.
  Looped-cons :
      (ii : IlInstr) (placed : List IlInstr) (total : ℕ) (g g₁ g' : Gen)
      → gen_instr be cs ds ii g ≡ ok g₁
      → length g.sections.code.bytes ≡ ii.code_offset
      → Grown ii.op_len g g₁
      → Looped placed total g₁ g'
      → Looped (ii ∷ placed) total g g'
  Looped-cons ii placed total g g₁ g' h here grown l = record {
    all = (
      record {
        before = g;
        after = g₁;
        generated = h;
        start = here;
        stop = omega (arith, length-Appended grown.code, grown.size);
        chunk = grown.chunk;
        rest = l.rest;
        written = grown.code.bytes;
        kept = l.code.bytes;
      },
      l.all,
    );
    size = l.size;
    rest = grown.chunk ++ l.rest;
    code = Appended-trans grown.code l.code;
    tables = l.tables ∙ grown.tables;
  }

  -- The invariant of the main loop: the code ends where the next instruction is to stand.
  loop-Looped :
      (t : Tables) (il : List IlInstr) (code_len : ℕ) (r : List IlInstr × ℕ) (g g' : Gen)
      → HasWords il
      → SameShape t g.tables
      → g.sections.code.cap < word_mod
      → length g.sections.code.bytes ≤ g.sections.code.cap
      → length g.sections.code.bytes ≡ code_len
      → calculate_from be t code_len il ≡ ok r
      → gen_loop be cs ds r.0 g ≡ ok g'
      → Looped r.0 r.1 g g'
  unfolding calculate_from gen_loop
  loop-Looped t [] code_len r g g' w same small fits here c h =
      subst (λ (x : List IlInstr × ℕ). gen_loop be cs ds x.0 g ≡ ok g' → Looped x.0 x.1 g g')
        (ok_injective c) (λ e. Looped-nil code_len g g' here (ok_injective e)) h
  loop-Looped t (ii ∷ il) code_len r g g' (w, ws) same small fits here c h =
      let (len, c₁, c₂) =
        >>=-eq-ok (be.c_get_code_length t (record ii { code_offset = code_len })) _ c in
      let (q, c₃, c₄) = >>=-eq-ok (calculate_from be t (add32 code_len len) il) _ c₂ in
      let ii' = record ii { code_offset = code_len; op_len = len } in
      let next : (g₁ : Gen)
          → gen_instr be cs ds ii' g ≡ ok g₁
          → gen_loop be cs ds q.0 g₁ ≡ ok g'
          → Looped (ii' ∷ q.0) q.1 g g' =
        λ g₁ h₁ h₂.
          let grown = round-Grown t ii code_len len g g₁ w same c₁ h₁ in
          let cap₁ : g₁.sections.code.cap ≡ g.sections.code.cap = grown.code.cap in
          let fits₁ = grown.code.fits fits in
          let here₁ : length g₁.sections.code.bytes ≡ add32 code_len len =
            omega (arith, length-Appended grown.code, grown.size, fits₁, cap₁) in
          Looped-cons ii' q.0 q.1 g g₁ g' h₁ here grown (
            loop-Looped t il (add32 code_len len) q g₁ g' ws
              (subst (SameShape t) (sym grown.tables) same) (omega (arith, cap₁)) fits₁ here₁ c₃
              h₂) in
      subst (λ (x : List IlInstr × ℕ). gen_loop be cs ds x.0 g ≡ ok g' → Looped x.0 x.1 g g')
        (ok_injective c₄)
        (λ e. let (g₁, h₁, h₂) = >>=-eq-ok (gen_instr be cs ds ii' g) _ e in next g₁ h₁ h₂) h

-- The first pass only sets the list of instructions.
calculated :
    (be : BackendDef) (t : Tables) (p : Tables × ℕ)
    → c_calculate_code_length be t ≡ ok p
    → (r : List IlInstr × ℕ) × (calculate_from be t 0 t.il ≡ ok r)
      × (p.0.il ≡ r.0)
      × (p.1 ≡ r.1)
      × SameShape t p.0
unfolding c_calculate_code_length
calculated be t p h =
    let (r, c, d) = >>=-eq-ok (calculate_from be t 0 t.il) _ h in
    let e = ok_injective d in
    (
      r,
      c,
      ap (λ (x : Tables × ℕ). x.0.il) (sym e),
      ap (λ (x : Tables × ℕ). x.1) (sym e),
      subst (λ (x : Tables × ℕ). SameShape t x.0) e (record { functions = refl; blocks = refl }),
    )

-- The two passes agree. Over a backend that obeys its laws, a program whose register numbers are
-- C ints, and a code section that was empty and has fewer than 2 ^ 32 bytes: where c_generate
-- ends well, the first pass has ended well, every instruction stands in the code at the place
-- and with the length that the first pass gave it, and the code is as long as the first pass
-- said.
pub c_generate-AllPlaced :
    (be : BackendDef) (laws : BackendLaws be) (t : Tables) (s : Sections) (block_level : ℕ)
    (g : Gen)
    → HasWords t.il
    → s.code.bytes ≡ []
    → s.code.cap < word_mod
    → c_generate be t s block_level ≡ ok g
    → (p : Tables × ℕ) × (c_calculate_code_length be t ≡ ok p)
      × (g.tables.il ≡ p.0.il)
      × (length g.sections.code.bytes ≡ p.1)
      × AllPlaced be code_start_address p.1 g.tables.il g.sections.code
unfolding c_generate
c_generate-AllPlaced be laws t s block_level g w empty small h =
    let (p, h₁, h₂) = >>=-eq-ok (c_calculate_code_length be t) _ h in
    let (q, h₃, h₄) = >>=-eq-ok (c_size_functions (add32 code_start_address p.1) p.0 s) _ h₂ in
    let (r, c, il, len, same) = calculated be t p h₁ in
    let (sized, code) = Sized-c_size_functions _ p.0 s q h₃ in
    let g₀ : Gen = record {
      tables = q.0;
      sections = q.1;
      bd = none;
      stack_size = 0;
      block_level = block_level;
    } in
    let bare : length q.1.code.bytes ≡ 0 =
      ap (λ (b : Buffer). length b.bytes) code ∙ ap length empty in
    let cap : q.1.code.cap ≡ s.code.cap = ap (λ (b : Buffer). b.cap) code in
    let looped =
      loop-Looped be laws code_start_address p.1 t t.il 0 r g₀ g w
        (SameShape-trans same sized.shape) (omega (arith, cap)) (omega (arith, bare)) bare c
        (subst (λ l. gen_loop be code_start_address p.1 l g₀ ≡ ok g) (sized.il ∙ il) h₄) in
    let il' : g.tables.il ≡ p.0.il = ap (λ (x : Tables). x.il) looped.tables ∙ sized.il in
    (
      p,
      h₁,
      il',
      looped.size ∙ sym len,
      subst (λ l. AllPlaced be code_start_address p.1 l g.sections.code) (sym (il' ∙ il))
          looped.all,
    )
