-- ===== src/Render/Json/Values.antt =====
-- The JSON values that src/render.cpp and src/app.cpp write, and their compact text. A number is its text.
use howlinux.Base.{
  ℕ, Bool, true, false, List, [], ◌∷◌, ◌≡◌, refl, ap, ◌∙◌, if◌then◌else◌, Bytes, codes,
}
use howlinux.Base.Numbers.{to_string}
use howlinux.Knowledge.{KnowledgeEntry}
use howlinux.Render.Escape.{escape_json}
use howlinux.Render.Number.{is_number, to_string-is_number}
use howlinux.Render.Write.{Writer, ◌<<◌, put, put_byte, nothing, put_each, put_separated}
use howlinux.Render.Json.{json_string, json_string_array, json_entry}

mutual
  pub data Json : Type 0 where
    null : Json
    boolean : Bool → Json
    number : (text : Bytes) → is_number text ≡ true → Json
    string : Bytes → Json
    array : Items → Json
    object : Members → Json

  pub data Items : Type 0 where
    no_items : Items
    item : Json → Items → Items

  pub data Members : Type 0 where
    no_members : Members
    member : Bytes → Json → Members → Members

abbrev pub natural : ℕ → Json
natural n = number (to_string n) (to_string-is_number n)

abbrev comma : Bool → Writer
comma first = if first then nothing else put_byte b','

-- The text of a value, without white space. A flag says whether an item or a member is the first.
unfoldable mutual
  pub print : Json → Writer
  print null = put (codes "null")
  print (boolean value) = put (if value then codes "true" else codes "false")
  print (number text valid) = put text
  print (string value) = json_string value
  print (array items) = put_byte b'[' << print_items true items << put_byte b']'
  print (object members) = put_byte b'{' << print_members true members << put_byte b'}'

  pub print_items : Bool → Items → Writer
  print_items first no_items = nothing
  print_items first (item value items) = comma first << print value << print_items false items

  pub print_members : Bool → Members → Writer
  print_members first no_members = nothing
  print_members first (member name value members) =
      comma first << json_string name << put_byte b':' << print value << print_members false members

abbrev pub items_of : {A : Type 0} → (A → Json) → List A → Items
items_of value [] = no_items
items_of value (x ∷ xs) = item (value x) (items_of value xs)

abbrev pub strings : List Bytes → Json
strings values = array (items_of string values)

module _ {A : Type 0} (write : A → Writer) (value : A → Json)
    (same : (x : A) (rest : Bytes) → write x rest ≡ print (value x) rest) where
  put_each-print :
      (xs : List A) (rest : Bytes)
      → put_each (λ y. put_byte b',' << write y) xs rest
        ≡ print_items false (items_of value xs) rest
  unfolding print
  put_each-print [] rest = refl
  put_each-print (x ∷ xs) rest =
      ap (λ text. b',' ∷ text) (same x _ ∙ ap (print (value x)) (put_each-print xs rest))

  -- A loop with commas writes the items of an array.
  pub put_separated-print :
      (xs : List A) (rest : Bytes)
      → put_separated (put_byte b',') write xs rest ≡ print_items true (items_of value xs) rest
  unfolding print
  put_separated-print [] rest = refl
  put_separated-print (x ∷ xs) rest = same x _ ∙ ap (print (value x)) (put_each-print xs rest)

pub string_array-print : json_string_array ≡ (λ values. print (strings values))
unfolding json_string_array print
string_array-print = λ i values rest.
    b'[' ∷ put_separated-print json_string string (λ x r. refl) values (b']' ∷ rest) i

abbrev pub entry_value : KnowledgeEntry → Json
entry_value entry = object (
    member (codes "id") (string entry.id) (
      member (codes "title") (string entry.title) (
        member (codes "type") (string entry.type) (
          member (codes "command") (string entry.command) (
            member (codes "aliases") (strings entry.aliases) (
              member (codes "keywords") (strings entry.keywords) (
                member (codes "related") (strings entry.related) (
                  member (codes "intent") (strings entry.intents) (
                    member (codes "difficulty") (string entry.difficulty) (
                      member (codes "platforms") (strings entry.platforms) (
                        member (codes "tags") (strings entry.tags) (
                          member (codes "examples") (strings entry.examples) (
                            member (codes "category") (string entry.category) (
                              member (codes "content") (string entry.content)
                                no_members))))))))))))))

pub entry-print : json_entry ≡ (λ entry. print (entry_value entry))
unfolding json_entry print json_string escape_json
entry-print = λ i entry rest. entry-print' entry rest i
  where
    entry-print' :
        (entry : KnowledgeEntry) (rest : Bytes)
        → json_entry entry rest ≡ print (entry_value entry) rest
    entry-print' entry rest = rw string_array-print refl
