-- ===== src/Classify/Prompt.antt =====
-- `DefaultVisionPrompt` and `VisionPrompt` of classify_types.go.
use go_imagefy.Prelude.{List, [], ◌∷◌, ◌++◌}
use go_imagefy.Text.{Text, codes}

-- The prompt's lines, one after the other.
unfoldable pub glue : List Text → Text
glue [] = []
glue (line ∷ lines) = line ++ glue lines

unfoldable pub default_vision_prompt : Text
unfolding glue
default_vision_prompt = glue (
    codes "You are an editorial image filter for a city guide website.\n"
    ∷ codes "We only accept real photographs without stock watermarks.\n"
    ∷ codes "\n"
    ∷ codes "Classify this image. Answer with one word and your confidence (0.0 to 1.0).\n"
    ∷ codes "\n"
    ∷ codes "Categories:\n"
    ∷ codes "- PHOTO — real photograph. Small corner watermark is OK.\n"
    ∷ codes
        "- STOCK — photograph with visible stock watermark (Shutterstock, Getty, iStock, etc.)\n"
    ∷ codes "- REJECT — banner, ad, promotional graphic, large text overlay, collage, meme.\n"
    ∷ codes "- SCREENSHOT — screenshot of a website, app, or software interface.\n"
    ∷ codes "- ILLUSTRATION — drawing, painting, digital art, cartoon, vector graphic.\n"
    ∷ codes "- MAP — map, satellite view, floor plan, diagram.\n"
    ∷ codes
        "- PLACEHOLDER — error page, \"no permission\" message, blank image with centered text,\n"
    ∷ codes
        "  site logo used as article image, or any image whose primary content is a text error\n"
    ∷ codes
        "  or permission-denial message (e.g. \"This site does not have permission to access or\n"
    ∷ codes
        "  serve this content\", \"404\", \"Access Denied\"). Uniform background with centered text\n"
    ∷ codes "  is a strong signal.\n"
    ∷ codes "\n"
    ∷ codes "Key distinctions:\n"
    ∷ codes "- Small corner watermark of photographer → PHOTO\n"
    ∷ codes "- Repeating diagonal stock watermark → STOCK\n"
    ∷ codes "- Text/graphics dominate the image → REJECT\n"
    ∷ codes "- Image is primarily an error message or permission denial → PLACEHOLDER\n"
    ∷ codes "- Site logo displayed as article thumbnail → PLACEHOLDER\n"
    ∷ codes "\n"
    ∷ codes "Answer format: CLASS 0.95\n"
    ∷ codes "Example: PHOTO 0.92\n"
    ∷ codes "Answer:"
    ∷ [])

-- `VisionPrompt`, which is deprecated.
unfoldable pub vision_prompt : Text
unfolding glue
vision_prompt = glue (
    codes "You are an editorial image filter for a city guide website.\n"
    ∷ codes "We only accept real photographs without stock watermarks.\n"
    ∷ codes "\n"
    ∷ codes "Classify this image. Answer with exactly one word:\n"
    ∷ codes "- PHOTO — a real photograph. Small photographer watermark in a corner is OK.\n"
    ∷ codes "- STOCK — a real photograph with a visible stock photo watermark (Shutterstock,\n"
    ∷ codes "  Getty Images, iStock, Adobe Stock, Depositphotos, Dreamstime, 123RF, Alamy,\n"
    ∷ codes
        "  or any semi-transparent tiled/diagonal watermark pattern typical of stock previews).\n"
    ∷ codes "- REJECT — banner, advertisement, social media cover, promotional graphic with\n"
    ∷ codes "  large text overlay, infographic, chart, screenshot, collage, illustration,\n"
    ∷ codes "  drawing, meme, map, UI element, or image where text/graphics dominate.\n"
    ∷ codes "\n"
    ∷ codes "Key distinctions:\n"
    ∷ codes "- Small corner watermark of a photographer → PHOTO\n"
    ∷ codes "- Repeating diagonal \"shutterstock\" or stock agency watermark → STOCK\n"
    ∷ codes "- Promotional banner with overlaid text/branding → REJECT\n"
    ∷ codes "\n"
    ∷ codes "Answer:"
    ∷ [])
