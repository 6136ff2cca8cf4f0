-- ===== src/Tests/Runs.antt =====
-- Runs of the framing code on the inputs of the unit tests of crates/execkit/src/framing.rs.
use execkit.Base.{◌≡◌, refl, ◌++◌, some, ◌∷◌, []}
use execkit.Text.Chars.{codes, Bytes}
use execkit.Text.Decimal.{pos}
use execkit.Framing.Base64.{b64}
use execkit.Framing.Markers.{Markers, new_markers, us}
use execkit.Framing.Parse.{parse, Parsed}
use execkit.Framing.Accumulator.{Accumulator, new, push}

b64_vectors :
    (b64 [] ≡ [])
    × (b64 (codes "f") ≡ codes "Zg==")
    × (b64 (codes "fo") ≡ codes "Zm8=")
    × (b64 (codes "foo") ≡ codes "Zm9v")
unfolding b64
b64_vectors = (refl, refl, refl, refl)

abbrev m : Markers
unfolding new_markers
m = new_markers (codes "t0")

-- An END whose block does not validate, then the real one.
raw : Bytes
raw =
    codes "junk__EXECKIT_t0__"
    ++ (us ∷ codes "9")
    ++ (codes "\nout\n__EXECKIT_t0__"
        ++ (us ∷ codes "0")
        ++ (us ∷ codes "/tmp")
        ++ (us ∷ codes "err__EXECKITEND_t0__\n"))

result : Parsed
result = record {
  stdout = codes "junk__EXECKIT_t0__9\nout";
  stderr = codes "err";
  exit_code = pos 0;
  cwd = codes "/tmp";
}

parse-raw : parse raw m ≡ some result
unfolding raw result parse new_markers execkit.Framing.Parse.find_block execkit.Framing.Search.find
    execkit.Framing.Parse.block_at execkit.Framing.Search.rfind execkit.Framing.Parse.separators
    execkit.Framing.Parse.parsed_of
parse-raw = refl

push-raw : (push (new 100) raw m).0 ≡ some result
unfolding raw result push new new_markers execkit.Framing.Accumulator.search_end
    execkit.Framing.Search.find parse execkit.Framing.Parse.find_block
    execkit.Framing.Parse.block_at execkit.Framing.Search.rfind execkit.Framing.Parse.separators
    execkit.Framing.Parse.parsed_of
push-raw = refl
